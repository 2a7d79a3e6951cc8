-- ===== src/Components/GroupTree/Placed.antt =====
-- The tree that is shown, read by the names of its nodes.
use mathlib.Core.Option.{some-injective}
use mozgoslav.Prelude.{
  ℕ, ◌≡◌, refl, sym, subst, inl, inr, Option, none, some, List, [], ◌∷◌, if◌then◌else◌, arith,
  Bool-cases, Option-cases,
}
use mozgoslav.Prelude.JsText.{eq_text}
use mozgoslav.Components.GroupTree.{
  normalize_path, Node, node, Children, no_child, child, create_node, join_path, with_child,
  add_item, add_items, build, TreeNode, shown, Forest, no_tree, tree, name_of,
}
use mozgoslav.Components.GroupTree.Lookup.{
  find_child, find_child-with_child, eq_text_refl, eq_text_join, eq_text_sound,
}

module _ {A : Type 0} where
  unfoldable mutual
    -- A node has its name and its path, no two of its children have a key in common, as in a map, and
    -- every child is named by its key and placed under the path that its key leads to.
    pub IsPlaced : (name path : List ℕ) → Node A → Type 0
    IsPlaced n p (node name path children items) = (name ≡ n) × ((path ≡ p) × ArePlaced p children)

    pub ArePlaced : List ℕ → Children A → Type 0
    ArePlaced p no_child = Unit
    ArePlaced p (child s t rest) =
        (find_child s rest ≡ none) × (IsPlaced s (join_path p s) t × ArePlaced p rest)

  with_child-ArePlaced :
      (s p : List ℕ) (f : Node A → Node A) (fresh : Node A) (children : Children A)
      → ((t : Node A) → IsPlaced s (join_path p s) t → IsPlaced s (join_path p s) (f t))
      → IsPlaced s (join_path p s) fresh
      → ArePlaced p children
      → ArePlaced p (with_child s f fresh children)
  unfolding with_child IsPlaced
  with_child-ArePlaced s p f fresh no_child k d h = (refl, (k fresh d, tt))
  with_child-ArePlaced s p f fresh (child t other rest) k d h = elim (Bool-cases (eq_text t s)) [
    | inl e ↦ rw e (
      h.0,
      (
        subst (λ u. IsPlaced u (join_path p u) (f other)) (sym (eq_text_sound t s e))
            (k other (subst (λ u. IsPlaced u (join_path p u) other) (eq_text_sound t s e) h.1.0)),
        h.1.1,
      ),
    )
    | inr e ↦ rw e (
      ground
          (arith, eq_text_refl t, eq_text_join t t s, find_child-with_child s t f fresh rest, h.0),
      (h.1.0, with_child-ArePlaced s p f fresh rest k d h.1.1),
    )
  ]

  add_item-IsPlaced :
      (segments : List (List ℕ)) (x : A) (name path : List ℕ) (t : Node A)
      → IsPlaced name path t
      → IsPlaced name path (add_item segments x path t)
  unfolding add_item IsPlaced
  add_item-IsPlaced [] x name path (node n own children items) h = h
  add_item-IsPlaced (s ∷ segments) x name path (node n own children items) h = (
    h.0,
    (
      h.1.0,
      with_child-ArePlaced s path (add_item segments x (join_path path s))
          (create_node s (join_path path s)) children
          (add_item-IsPlaced segments x s (join_path path s)) (refl, (refl, tt)) h.1.1,
    ),
  )

  pub find_child-IsPlaced :
      (u p : List ℕ) (children : Children A) (t : Node A)
      → ArePlaced p children
      → find_child u children ≡ some t
      → IsPlaced u (join_path p u) t
  unfolding IsPlaced
  find_child-IsPlaced u p no_child t h e = cc
  find_child-IsPlaced u p (child s other rest) t h e = elim (Bool-cases (eq_text s u)) [
    | inl f ↦
        let same : some other ≡ some t = ground arith in
        subst (λ v. IsPlaced u (join_path p u) v) (some-injective other t same)
          (subst (λ v. IsPlaced v (join_path p v) other) (eq_text_sound s u f) h.1.0)
    | inr f ↦ find_child-IsPlaced u p rest t h.1.1 (ground arith)
  ]

  module _ (get_group_path : A → Option (List ℕ)) where
    add_items-IsPlaced :
        (items : List A) (root : Node A)
        → IsPlaced [] [] root
        → IsPlaced [] [] (add_items get_group_path items root)
    unfolding add_items
    add_items-IsPlaced [] root h = h
    add_items-IsPlaced (x ∷ items) root h =
        add_items-IsPlaced items (add_item (normalize_path (get_group_path x)) x [] root)
          (add_item-IsPlaced (normalize_path (get_group_path x)) x [] [] root h)

    pub build-IsPlaced : (items : List A) → IsPlaced [] [] (build get_group_path items)
    unfolding build IsPlaced
    build-IsPlaced items = add_items-IsPlaced items (create_node [] []) (refl, (refl, tt))

  -- the child that is shown under a name
  abbrev pub find_tree : List ℕ → Forest A → Option (TreeNode A)
  find_tree s no_tree = none
  find_tree s (tree t rest) = if eq_text (name_of t) s then some t else find_tree s rest

  -- the node that is shown under a path of names
  unfoldable pub node_at : List (List ℕ) → TreeNode A → Option (TreeNode A)
  node_at [] t = some t
  node_at (s ∷ names) (shown name path children items) = elim (find_tree s children) [
    | none ↦ none
    | some t ↦ node_at names t
  ]

  -- the items that are shown there
  abbrev pub shown_items : Option (TreeNode A) → List A
  shown_items none = []
  shown_items (some (shown name path children items)) = items

  abbrev pub shown_in : List (List ℕ) → Option (TreeNode A) → Option (TreeNode A)
  shown_in t none = none
  shown_in t (some n) = node_at t n

  pub node_at-cons :
      (u : List ℕ) (t : List (List ℕ)) (name own : List ℕ) (forest : Forest A) (items : List A)
      → node_at (u ∷ t) (shown name own forest items) ≡ shown_in t (find_tree u forest)
  unfolding node_at
  node_at-cons u t name own forest items = elim (Option-cases (find_tree u forest)) [
    | inl e ↦ rw (e, node_at) refl
    | inr (n, e) ↦ rw (e, node_at) refl
  ]

-- the names of a path, joined as the tree does, behind a path
abbrev pub joined : List ℕ → List (List ℕ) → List ℕ
joined path [] = path
joined path (s ∷ names) = joined (join_path path s) names

-- the name of the node under a path: its last one
abbrev pub last_name : List ℕ → List (List ℕ) → List ℕ
last_name name [] = name
last_name name (s ∷ names) = last_name s names
