-- ===== src/Components/GroupTree.antt =====
-- frontend/src/components/GroupedList/tree.ts: items grouped into a tree by their paths. A text is the
-- list of its code units; the cursor that walks down the mutable nodes is an update of a subtree.
pub mod Lookup
pub mod Placed
pub mod Paths
pub mod Sorted
pub mod Order
mod Tests
use mozgoslav.Prelude.{
  ℕ, zero, suc, ◌+◌, Bool, true, false, not, ◌&&◌, Option, none, some, List, [], ◌∷◌, ◌++◌, map,
  if◌then◌else◌, filter, eqb,
}
use mozgoslav.Prelude.JsText.{trim, eq_text, is_empty}
use mathlib.Core.List.{reverse}

-- `s.split("/")`: `cur` holds, in reverse, what has been read of the current part
unfoldable pub split_slash : List ℕ → List ℕ → List (List ℕ)
split_slash cur [] = reverse cur ∷ []
split_slash cur (c ∷ s) = elim (eqb c 47) [
  | true ↦ reverse cur ∷ split_slash [] s
  | false ↦ split_slash (c ∷ cur) s
]

-- `normalizePath`
unfoldable pub normalize_path : Option (List ℕ) → List (List ℕ)
normalize_path none = []
normalize_path (some raw) =
    if is_empty raw then [] else filter (λ s. not (is_empty s)) (map trim (split_slash [] raw))

-- the step of the path
abbrev pub join_path : List ℕ → List ℕ → List ℕ
join_path path segment = if is_empty path then segment else path ++ 47 ∷ segment

mutual
  -- `MutableNode`, and the entries of its map `children`, in insertion order
  pub data Node (A : Type 0) : Type 0 where
    node : (name path : List ℕ) (children : Children A) (items : List A) → Node A

  pub data Children (A : Type 0) : Type 0 where
    no_child : Children A
    child : (segment : List ℕ) (tree : Node A) (rest : Children A) → Children A

module _ {A : Type 0} where
  -- `createNode`
  abbrev pub create_node : List ℕ → List ℕ → Node A
  create_node name path = node name path no_child []

  -- the child `segment`, which is `fresh` if it is not there, is changed
  unfoldable pub with_child : List ℕ → (Node A → Node A) → Node A → Children A → Children A
  with_child segment f fresh no_child = child segment (f fresh) no_child
  with_child segment f fresh (child s tree rest) =
      let others = with_child segment f fresh rest in
      if eq_text s segment then child s (f tree) rest else child s tree others

  -- the body of the loop over the items of `buildTree`, at a node and its path
  unfoldable pub add_item : List (List ℕ) → A → List ℕ → Node A → Node A
  add_item [] x path (node name own children items) = node name own children (items ++ x ∷ [])
  add_item (s ∷ segments) x path (node name own children items) =
      node name own
        (with_child s (add_item segments x (join_path path s)) (create_node s (join_path path s))
          children)
        items

  module _ (get_group_path : A → Option (List ℕ)) where
    -- the loop of `buildTree`
    unfoldable pub add_items : List A → Node A → Node A
    add_items [] root = root
    add_items (x ∷ items) root =
        add_items items (add_item (normalize_path (get_group_path x)) x [] root)

    -- `buildTree` before `freeze`
    unfoldable pub build : List A → Node A
    build items = add_items items (create_node [] [])

mutual
  -- `TreeNode`, and the list `children`
  pub data TreeNode (A : Type 0) : Type 0 where
    shown : (name path : List ℕ) (children : Forest A) (items : List A) → TreeNode A

  pub data Forest (A : Type 0) : Type 0 where
    no_tree : Forest A
    tree : (first : TreeNode A) (rest : Forest A) → Forest A

module _ {A : Type 0} where
  abbrev pub name_of : TreeNode A → List ℕ
  name_of (shown name path children items) = name

  abbrev pub path_of : TreeNode A → List ℕ
  path_of (shown name path children items) = path

-- `comes_first` is `a.localeCompare(b) <= 0`
module _ {A : Type 0} (comes_first : List ℕ → List ℕ → Bool) where
  -- one step of the stable sort of the children by name
  unfoldable pub insert_tree : TreeNode A → Forest A → Forest A
  insert_tree t no_tree = tree t no_tree
  insert_tree t (tree other rest) =
      let later = insert_tree t rest in
      if comes_first (name_of t) (name_of other) then tree t (tree other rest) else tree other later

  unfoldable mutual
    -- `freeze`: the keys of the children are dropped; a child keeps its name, so that it may as well be
    -- frozen before the sort
    pub freeze : Node A → TreeNode A
    freeze (node name path children items) = shown name path (freeze_children children) items

    pub freeze_children : Children A → Forest A
    freeze_children no_child = no_tree
    freeze_children (child s t rest) = insert_tree (freeze t) (freeze_children rest)

  -- `buildTree`
  unfoldable pub build_tree : (A → Option (List ℕ)) → List A → TreeNode A
  build_tree get_group_path items = freeze (build get_group_path items)

-- `hasAnyGroup`
abbrev pub has_any_group : {A : Type 0} → TreeNode A → Bool
has_any_group (shown name path no_tree items) = false
has_any_group (shown name path (tree _ _) items) = true
