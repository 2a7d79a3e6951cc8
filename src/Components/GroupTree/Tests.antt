-- ===== src/Components/GroupTree/Tests.antt =====
-- The group tree at concrete paths.
use mozgoslav.Prelude.{
  ℕ, zero, suc, ◌≡◌, refl, Bool, true, false, Option, none, some, List, [], ◌∷◌, filter, leb, arith,
}
use mozgoslav.Prelude.Text.{codes}
use mozgoslav.Prelude.JsText.{trim, is_space}
use mozgoslav.Components.GroupTree.{
  split_slash, normalize_path, shown, no_tree, tree, with_child, add_item, add_items, build,
  insert_tree, freeze, build_tree,
}
use mozgoslav.Components.GroupTree.Lookup.{is_in}
use mozgoslav.Components.GroupTree.Placed.{node_at, shown_items}
use mozgoslav.Components.GroupTree.Sorted.{IsLabelled, shown_items-build_tree}

-- a stand-in for `localeCompare`: by the first letter
abbrev by_letter : List ℕ → List ℕ → Bool
by_letter [] t = true
by_letter (a ∷ s) [] = false
by_letter (a ∷ s) (b ∷ t) = leb a b

by_letter_total : (s t : List ℕ) → by_letter s t ≡ false → by_letter t s ≡ true
by_letter_total [] t e = cc
by_letter_total (a ∷ s) [] e = refl
by_letter_total (a ∷ s) (b ∷ t) e = ground arith

-- three notes by their paths
abbrev path_of : ℕ → Option (List ℕ)
path_of zero = none
path_of (suc zero) = some (codes "work / b/")
path_of (suc (suc _)) = some (codes "a")

abbrev notes : List ℕ
notes = 1 ∷ 0 ∷ 2 ∷ 3 ∷ []

grouped :
    build_tree by_letter path_of notes
    ≡ shown [] []
        (tree (shown (codes "a") (codes "a") no_tree (2 ∷ 3 ∷ [])) (
          tree
            (shown
              (codes "work")
              (codes "work")
              (tree (shown (codes "b") (codes "work/b") no_tree (1 ∷ [])) no_tree)
              [])
            no_tree))
        (0 ∷ [])
unfolding build_tree build add_items add_item with_child normalize_path split_slash freeze
    insert_tree trim is_space
grouped = refl

shown_items-build_tree_example :
    let found = node_at (codes "work" ∷ codes "b" ∷ []) (build_tree by_letter path_of notes) in
    (shown_items found ≡ filter (is_in path_of (codes "work" ∷ codes "b" ∷ [])) notes)
    × IsLabelled (codes "b") (codes "work/b") found
shown_items-build_tree_example =
    shown_items-build_tree by_letter path_of (codes "work" ∷ codes "b" ∷ []) notes
