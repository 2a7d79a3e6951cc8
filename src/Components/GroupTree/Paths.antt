-- ===== src/Components/GroupTree/Paths.antt =====
-- The paths of nodes, joined by slashes.
use mathlib.Core.List.{append_assoc, append-nil}
use mozgoslav.Prelude.{
  ℕ, ◌≡◌, refl, sym, ◌∙◌, false, not, Option, none, some, List, [], ◌∷◌, ◌++◌, map, filter, arith,
  All, if_cases,
}
use mozgoslav.Prelude.JsText.{is_empty, trim}
use mozgoslav.Components.GroupTree.{
  split_slash, normalize_path, Node, node, create_node, join_path, add_item, add_items, build,
}
use mozgoslav.Components.GroupTree.Lookup.{find_child, find_child-with_child}
use mozgoslav.Components.GroupTree.Placed.{joined}

-- every name behind a slash
abbrev pub slash_all : List (List ℕ) → List ℕ
slash_all [] = []
slash_all (s ∷ names) = 47 ∷ (s ++ slash_all names)

-- the names with slashes between them
abbrev pub slashed : List (List ℕ) → List ℕ
slashed [] = []
slashed (s ∷ names) = s ++ slash_all names

pub joined_lem :
    (c : ℕ) (path : List ℕ) (names : List (List ℕ))
    → joined (c ∷ path) names ≡ (c ∷ path) ++ slash_all names
joined_lem c path [] = sym (append-nil (c ∷ path))
joined_lem c path (s ∷ names) =
    joined_lem c (path ++ 47 ∷ s) names ∙ append_assoc (c ∷ path) (47 ∷ s) (slash_all names)

filter-nonempty :
    (names : List (List ℕ)) → All (λ s. is_empty s ≡ false) (filter (λ s. not (is_empty s)) names)
filter-nonempty [] = tt
filter-nonempty (s ∷ names) =
    if_cases (All (λ s. is_empty s ≡ false)) (not (is_empty s))
      (λ e. (ground arith, filter-nonempty names)) (λ _. filter-nonempty names)

normalize_path-nonempty :
    (raw : Option (List ℕ)) → All (λ s. is_empty s ≡ false) (normalize_path raw)
unfolding normalize_path
normalize_path-nonempty none = tt
normalize_path-nonempty (some raw) =
    if_cases (All (λ s. is_empty s ≡ false)) (is_empty raw) (λ _. tt)
      (λ _. filter-nonempty (map trim (split_slash [] raw)))

module _ {A : Type 0} where
  -- no child of the root has the empty text as its key
  abbrev pub IsNamed : Node A → Type 0
  IsNamed (node name path children items) = find_child [] children ≡ none

  add_item-IsNamed :
      (segments : List (List ℕ)) (x : A) (path : List ℕ) (root : Node A)
      → All (λ s. is_empty s ≡ false) segments
      → IsNamed root
      → IsNamed (add_item segments x path root)
  unfolding add_item
  add_item-IsNamed [] x path (node name own children items) a h = h
  add_item-IsNamed ([] ∷ segments) x path (node name own children items) a h = cc
  add_item-IsNamed ((c ∷ s) ∷ segments) x path (node name own children items) a h =
      find_child-with_child (c ∷ s) [] (add_item segments x (join_path path (c ∷ s)))
        (create_node (c ∷ s) (join_path path (c ∷ s))) children
      ∙ h

  module _ (get_group_path : A → Option (List ℕ)) where
    add_items-IsNamed :
        (items : List A) (root : Node A)
        → IsNamed root
        → IsNamed (add_items get_group_path items root)
    unfolding add_items
    add_items-IsNamed [] root h = h
    add_items-IsNamed (x ∷ items) root h =
        add_items-IsNamed items (add_item (normalize_path (get_group_path x)) x [] root) (
          add_item-IsNamed (normalize_path (get_group_path x)) x [] root
            (normalize_path-nonempty (get_group_path x)) h)

    pub build-IsNamed : (items : List A) → IsNamed (build get_group_path items)
    unfolding build
    build-IsNamed items = add_items-IsNamed items (create_node [] []) refl
