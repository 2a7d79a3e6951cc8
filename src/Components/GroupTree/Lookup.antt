-- ===== src/Components/GroupTree/Lookup.antt =====
-- The tree as a map from group paths to items.
use mathlib.Core.List.{append-nil, append_assoc}
use mozgoslav.Prelude.{
  ℕ, ◌≡◌, refl, sym, ap, ◌∙◌, Bool, true, false, ◌&&◌, inl, inr, Option, none, some, List, [], ◌∷◌,
  ◌++◌, if◌then◌else◌, filter, arith, Bool-cases, Option-cases,
}
use mozgoslav.Prelude.JsText.{eq_text}
use mozgoslav.Components.GroupTree.{
  normalize_path, Node, node, Children, no_child, child, create_node, join_path, with_child,
  add_item, add_items, build,
}

abbrev pub eq_path : List (List ℕ) → List (List ℕ) → Bool
eq_path [] [] = true
eq_path (a ∷ s) (b ∷ t) = eq_text a b && eq_path s t
eq_path _ _ = false

pub eq_text_refl : (s : List ℕ) → eq_text s s ≡ true
eq_text_refl [] = refl
eq_text_refl (c ∷ s) = ground (arith, eq_text_refl s)

pub eq_text_sound : (s t : List ℕ) → eq_text s t ≡ true → s ≡ t
eq_text_sound [] [] e = refl
eq_text_sound [] (c ∷ t) e = cc
eq_text_sound (c ∷ s) [] e = cc
eq_text_sound (c ∷ s) (d ∷ t) e = ground (arith, eq_text_sound s t)

pub eq_text_same : (t s u : List ℕ) → eq_text t s ≡ true → eq_text t u ≡ eq_text s u
eq_text_same t s u e = ap (λ x. eq_text x u) (eq_text_sound t s e)

pub eq_text_join : (t u s : List ℕ) → eq_text t u ≡ true → eq_text s u ≡ true → eq_text t s ≡ true
eq_text_join t u s e f = rw (eq_text_sound t u e, eq_text_sound s u f) (eq_text_refl u)

module _ {A : Type 0} where
  abbrev pub find_child : List ℕ → Children A → Option (Node A)
  find_child s no_child = none
  find_child s (child t tree rest) = if eq_text t s then some tree else find_child s rest

  -- the items of the node that a path leads to
  unfoldable pub items_at : List (List ℕ) → Node A → List A
  items_at [] (node name path children items) = items
  items_at (s ∷ segments) (node name path children items) = elim (find_child s children) [
    | none ↦ []
    | some tree ↦ items_at segments tree
  ]

  -- the child that is changed
  abbrev child_or : Node A → Option (Node A) → Node A
  child_or fresh none = fresh
  child_or fresh (some tree) = tree

  pub find_child-with_child :
      (s u : List ℕ) (f : Node A → Node A) (fresh : Node A) (children : Children A)
      → find_child u (with_child s f fresh children) ≡ (
          if eq_text s u
          then some (f (child_or fresh (find_child s children)))
          else find_child u children)
  unfolding with_child
  find_child-with_child s u f fresh no_child = refl
  find_child-with_child s u f fresh (child t tree rest) =
      ground (arith, eq_text_same t s u, eq_text_join t u s, find_child-with_child s u f fresh rest)

  abbrev pub items_in : List (List ℕ) → Option (Node A) → List A
  items_in t none = []
  items_in t (some tree) = items_at t tree

  items_at-create_node :
      (t : List (List ℕ)) (name path : List ℕ) → items_at t (create_node {A = A} name path) ≡ []
  unfolding items_at
  items_at-create_node [] name path = refl
  items_at-create_node (s ∷ t) name path = refl

  items_at-child_or :
      (t : List (List ℕ)) (name path : List ℕ) (o : Option (Node A))
      → items_at t (child_or (create_node name path) o) ≡ items_in t o
  items_at-child_or t name path none = items_at-create_node t name path
  items_at-child_or t name path (some tree) = refl

  pub items_at-cons :
      (u : List ℕ) (t : List (List ℕ)) (name own : List ℕ) (children : Children A) (items : List A)
      → items_at (u ∷ t) (node name own children items) ≡ items_in t (find_child u children)
  unfolding items_at
  items_at-cons u t name own children items = elim (Option-cases (find_child u children)) [
    | inl e ↦ rw (e, items_at) refl
    | inr (tree, e) ↦ rw (e, items_at) refl
  ]

  -- a new item is found at its path, behind the others, and nowhere else
  items_at-add_item :
      (segments t : List (List ℕ)) (x : A) (path : List ℕ) (tree : Node A)
      → items_at t (add_item segments x path tree)
        ≡ items_at t tree ++ (if eq_path segments t then x ∷ [] else [])
  unfolding items_at add_item
  items_at-add_item [] [] x path (node name own children items) = refl
  items_at-add_item [] (u ∷ t) x path (node name own children items) = sym (append-nil _)
  items_at-add_item (s ∷ segments) [] x path (node name own children items) = sym (append-nil items)
  items_at-add_item (s ∷ segments) (u ∷ t) x path (node name own children items) =
      let p : List ℕ = join_path path s in
      let f : Node A → Node A = add_item segments x p in
      let fresh : Node A = create_node s p in
      let old : Node A = child_or fresh (find_child s children) in
      let found : find_child u (with_child s f fresh children)
          ≡ (if eq_text s u then some (f old) else find_child u children) =
        find_child-with_child s u f fresh children in
      items_at-cons u t name own (with_child s f fresh children) items
      ∙ rw (items_at-cons u t name own children items, found)
          (elim (Bool-cases (eq_text s u)) [
            | inl e ↦ rw e (
                items_at-add_item segments t x p old
                ∙ ap (λ l. l ++ (if eq_path segments t then x ∷ [] else []))
                    (items_at-child_or t s p (find_child s children)
                      ∙ ap (λ v. items_in t (find_child v children)) (eq_text_sound s u e)))
            | inr e ↦ rw e (sym (append-nil (items_in t (find_child u children))))
          ])

  module _ (get_group_path : A → Option (List ℕ)) where
    abbrev pub is_in : List (List ℕ) → A → Bool
    is_in t x = eq_path (normalize_path (get_group_path x)) t

    items_at-add_items :
        (t : List (List ℕ)) (items : List A) (root : Node A)
        → items_at t (add_items get_group_path items root)
          ≡ items_at t root ++ filter (is_in t) items
    unfolding add_items
    items_at-add_items t [] root = sym (append-nil (items_at t root))
    items_at-add_items t (x ∷ items) root =
        items_at-add_items t items (add_item (normalize_path (get_group_path x)) x [] root)
        ∙ (ap (λ l. l ++ filter (is_in t) items)
              (items_at-add_item (normalize_path (get_group_path x)) t x [] root)
            ∙ (append_assoc (items_at t root) _ (filter (is_in t) items)
                ∙ ap (λ l. items_at t root ++ l) (head_or t x items)))
      where
        head_or :
            (t : List (List ℕ)) (x : A) (items : List A)
            → (if is_in t x then x ∷ [] else []) ++ filter (is_in t) items
              ≡ filter (is_in t) (x ∷ items)
        head_or t x items = ground arith

    -- Before it is sorted, the tree holds under every path the items with that path, in their order.
    pub items_at-build :
        (t : List (List ℕ)) (items : List A)
        → items_at t (build get_group_path items) ≡ filter (is_in t) items
    unfolding build
    items_at-build t items =
        items_at-add_items t items (create_node [] [])
        ∙ ap (λ l. l ++ filter (is_in t) items) (items_at-create_node t [] [])
