-- ===== src/Components/GroupTree/Sorted.antt =====
-- The items, the names and the paths of the tree that is shown.
use mozgoslav.Prelude.{
  ℕ, ◌≡◌, refl, sym, ap, subst, ◌∙◌, inl, inr, Option, none, some, List, [], ◌∷◌, if◌then◌else◌,
  filter, arith, Bool, Bool-cases, Option-cases,
}
use mozgoslav.Prelude.JsText.{eq_text}
use mozgoslav.Components.GroupTree.{
  Node, node, Children, no_child, child, join_path, build, TreeNode, Forest, no_tree, tree, name_of,
  path_of, insert_tree, freeze, freeze_children, build_tree,
}
use mozgoslav.Components.GroupTree.Lookup.{
  find_child, items_at, items_at-cons, eq_text_join, eq_text_same, is_in, items_at-build,
}
use mozgoslav.Components.GroupTree.Placed.{
  IsPlaced, ArePlaced, find_child-IsPlaced, build-IsPlaced, find_tree, node_at, node_at-cons,
  shown_items, shown_in, last_name, joined,
}
use mozgoslav.Components.GroupTree.Paths.{slashed, joined_lem, IsNamed, build-IsNamed}

-- a node that is shown has the name and the path that lead to it
abbrev pub IsLabelled : {A : Type 0} → (name path : List ℕ) → Option (TreeNode A) → Type 0
IsLabelled name path none = Unit
IsLabelled name path (some t) = (name_of t ≡ name) × (path_of t ≡ path)

module _ {A : Type 0} (comes_first : List ℕ → List ℕ → Bool) where
  find_tree-insert_tree :
      (u : List ℕ) (t : TreeNode A) (forest : Forest A)
      → find_tree (name_of t) forest ≡ none
      → find_tree u (insert_tree comes_first t forest)
        ≡ (if eq_text (name_of t) u then some t else find_tree u forest)
  unfolding insert_tree
  find_tree-insert_tree u t no_tree h = refl
  find_tree-insert_tree u t (tree other rest) h = ground (
    arith,
    eq_text_same (name_of t) (name_of other) u,
    eq_text_join (name_of other) u (name_of t),
    eq_text_join (name_of t) u (name_of other),
    find_tree-insert_tree u t rest,
  )

  freeze-label :
      (n p : List ℕ) (t : Node A)
      → IsPlaced n p t
      → (name_of (freeze comes_first t) ≡ n) × (path_of (freeze comes_first t) ≡ p)
  unfolding freeze IsPlaced
  freeze-label n p (node name path children items) h = (h.0, h.1.0)

  abbrev frozen : Option (Node A) → Option (TreeNode A)
  frozen none = none
  frozen (some t) = some (freeze comes_first t)

  find_tree-freeze_children :
      (u p : List ℕ) (children : Children A)
      → ArePlaced p children
      → find_tree u (freeze_children comes_first children) ≡ frozen (find_child u children)
  unfolding freeze IsPlaced
  find_tree-freeze_children u p no_child h = refl
  find_tree-freeze_children u p (child s t rest) h =
      let named : name_of (freeze comes_first t) ≡ s = (freeze-label s (join_path p s) t h.1.0).0 in
      let clean : find_tree (name_of (freeze comes_first t)) (freeze_children comes_first rest)
          ≡ none =
        rw named (find_tree-freeze_children s p rest h.1.1 ∙ rw h.0 refl) in
      find_tree-insert_tree u (freeze comes_first t) (freeze_children comes_first rest) clean
      ∙ rw named (elim (Bool-cases (eq_text s u)) [
        | inl e ↦ rw e refl
        | inr e ↦ rw e (find_tree-freeze_children u p rest h.1.1)
      ])

  -- a path is read in the tree that is shown as in the one that was built
  node_at-freeze :
      (u : List ℕ) (t : List (List ℕ)) (n p name path : List ℕ) (children : Children A)
      (items : List A)
      → IsPlaced n p (node name path children items)
      → node_at (u ∷ t) (freeze comes_first (node name path children items))
        ≡ shown_in t (frozen (find_child u children))
  unfolding freeze IsPlaced
  node_at-freeze u t n p name path children items h =
      node_at-cons u t name path (freeze_children comes_first children) items
      ∙ ap (shown_in t) (find_tree-freeze_children u p children h.1.1)

  shown_items-freeze :
      (t : List (List ℕ)) (n p : List ℕ) (root : Node A)
      → IsPlaced n p root
      → shown_items (node_at t (freeze comes_first root)) ≡ items_at t root
  unfolding items_at freeze IsPlaced node_at
  shown_items-freeze [] n p (node name path children items) h = refl
  shown_items-freeze (u ∷ t) n p (node name path children items) h =
      ap shown_items (node_at-freeze u t n p name path children items h)
      ∙ (elim (Option-cases (find_child u children)) [
        | inl e ↦ rw e refl
        | inr (m, e) ↦
            rw e (
              shown_items-freeze t u (join_path p u) m (find_child-IsPlaced u p children m h.1.1 e))
      ]
          ∙ sym (items_at-cons u t name path children items))

  node_at-IsLabelled :
      (t : List (List ℕ)) (n p : List ℕ) (root : Node A)
      → IsPlaced n p root
      → IsLabelled (last_name n t) (joined p t) (node_at t (freeze comes_first root))
  unfolding freeze IsPlaced node_at
  node_at-IsLabelled [] n p (node name path children items) h = (h.0, h.1.0)
  node_at-IsLabelled (u ∷ t) n p (node name path children items) h =
      rw (node_at-freeze u t n p name path children items h)
        (elim (Option-cases (find_child u children)) [
          | inl e ↦ rw e tt
          | inr (m, e) ↦ rw e (
              node_at-IsLabelled t u (join_path p u) m (find_child-IsPlaced u p children m h.1.1 e))
        ])

  -- from the root, whose path is empty, the joined names are the names with slashes between them
  root-IsLabelled :
      (t : List (List ℕ)) (root : Node A)
      → IsPlaced [] [] root
      → IsNamed root
      → IsLabelled (last_name [] t) (slashed t) (node_at t (freeze comes_first root))
  root-IsLabelled [] root h k = node_at-IsLabelled [] [] [] root h
  root-IsLabelled ([] ∷ t) (node name path children items) h k =
      rw (node_at-freeze [] t [] [] name path children items h, k) tt
  root-IsLabelled ((c ∷ s) ∷ t) root h k =
      subst
        (λ p. IsLabelled (last_name (c ∷ s) t) p (node_at ((c ∷ s) ∷ t) (freeze comes_first root)))
        (joined_lem c s t) (node_at-IsLabelled ((c ∷ s) ∷ t) [] [] root h)

  -- The tree that is shown, read by the names of its nodes, holds under every path of names the items
  -- whose normalized group path it is, in the order of the list, and so every item at one place; the
  -- order of the children has no part in it. A node that is shown there has the last name as its
  -- name and the names joined by slashes as its path.
  pub shown_items-build_tree :
      (get_group_path : A → Option (List ℕ)) (t : List (List ℕ)) (items : List A)
      → let found = node_at t (build_tree comes_first get_group_path items) in
        (shown_items found ≡ filter (is_in get_group_path t) items)
        × IsLabelled (last_name [] t) (slashed t) found
  unfolding build_tree
  shown_items-build_tree get_group_path t items =
      let placed : IsPlaced [] [] (build get_group_path items) =
        build-IsPlaced get_group_path items in
      (
        shown_items-freeze t [] [] (build get_group_path items) placed
            ∙ items_at-build get_group_path t items,
        root-IsLabelled t (build get_group_path items) placed (build-IsNamed get_group_path items),
      )
