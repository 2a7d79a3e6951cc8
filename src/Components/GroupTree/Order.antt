-- ===== src/Components/GroupTree/Order.antt =====
-- The order of the children in the tree that is shown.
use mozgoslav.Prelude.{ℕ, ◌≡◌, Bool, true, false, Option, List, Bool-cases, inl, inr}
use mozgoslav.Components.GroupTree.{
  Node, node, Children, no_child, child, TreeNode, shown, Forest, no_tree, tree, name_of, build,
  insert_tree, freeze, freeze_children, build_tree,
}

module _ {A : Type 0} (comes_first : List ℕ → List ℕ → Bool) where
  -- the name comes before that of the first of the children
  abbrev pub Precedes : List ℕ → Forest A → Type 0
  Precedes s no_tree = Unit
  Precedes s (tree t rest) = comes_first s (name_of t) ≡ true

  unfoldable mutual
    -- at every node the children are in order
    pub IsSorted : TreeNode A → Type 0
    IsSorted (shown name path children items) = AreSorted children

    pub AreSorted : Forest A → Type 0
    AreSorted no_tree = Unit
    AreSorted (tree t rest) = Precedes (name_of t) rest × (IsSorted t × AreSorted rest)

module _ {A : Type 0} (comes_first : List ℕ → List ℕ → Bool)
    (total : (s t : List ℕ) → comes_first s t ≡ false → comes_first t s ≡ true) where
  insert_tree-Precedes :
      (s : List ℕ) (t : TreeNode A) (forest : Forest A)
      → comes_first s (name_of t) ≡ true
      → Precedes comes_first s forest
      → Precedes comes_first s (insert_tree comes_first t forest)
  unfolding insert_tree
  insert_tree-Precedes s t no_tree e h = e
  insert_tree-Precedes s t (tree other rest) e h =
      elim (Bool-cases (comes_first (name_of t) (name_of other))) [
        | inl f ↦ rw f e
        | inr f ↦ rw f h
      ]

  insert_tree-AreSorted :
      (t : TreeNode A) (forest : Forest A)
      → IsSorted comes_first t
      → AreSorted comes_first forest
      → AreSorted comes_first (insert_tree comes_first t forest)
  unfolding insert_tree IsSorted
  insert_tree-AreSorted t no_tree k h = (tt, (k, tt))
  insert_tree-AreSorted t (tree other rest) k h =
      elim (Bool-cases (comes_first (name_of t) (name_of other))) [
        | inl e ↦ rw e (e, (k, h))
        | inr e ↦ rw e (
          insert_tree-Precedes (name_of other) t rest (total (name_of t) (name_of other) e) h.0,
          (h.1.0, insert_tree-AreSorted t rest k h.1.1),
        )
      ]

  mutual
    unfolding freeze IsSorted

    sort_node : (t : Node A) → IsSorted comes_first (freeze comes_first t)
    sort_node (node name path children items) = sort_children children

    sort_children :
        (children : Children A) → AreSorted comes_first (freeze_children comes_first children)
    sort_children no_child = tt
    sort_children (child s t rest) =
        insert_tree-AreSorted (freeze comes_first t) (freeze_children comes_first rest)
          (sort_node t) (sort_children rest)

  -- If of two names one comes first, the children of every node of the tree that is shown stand in the
  -- order of their names.
  pub build_tree-IsSorted :
      (get_group_path : A → Option (List ℕ)) (items : List A)
      → IsSorted comes_first (build_tree comes_first get_group_path items)
  unfolding build_tree
  build_tree-IsSorted get_group_path items = sort_node (build get_group_path items)
