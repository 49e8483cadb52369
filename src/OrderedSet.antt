-- ===== src/OrderedSet.antt =====
-- include/justUtils/dataStructures/orderedSet.h and src/dataStructures/orderedSet.c: an AVL tree.
-- Every node has one parent, so the tree of pointers is a value, and NULL is `leaf`. A function
-- that changes a subtree in place returns it, as the C functions do. The comparison is a parameter,
-- `justCompareFunc`; only its sign counts.
pub mod Spec
pub mod Insert
pub mod Remove
pub mod Balance
pub mod Repair
pub mod Shrink
pub mod Grow
use just_library.Base.{
  ℕ, zero, suc, ◌+◌, ◌-◌, Bool, true, false, ◌&&◌, ◌||◌, not, Option, none, some, List, [], ◌∷◌,
  ◌++◌, if◌then◌else◌, ltb, ◌==◌, is_some, add_size, sub_size,
}
use just_library.Base.Int.{ℤ, pos, negsuc, sub_ℕ, ltb_ℤ, leb_ℤ}

-- `JustAVLNode*`: left, data, height, right
pub data Tree (A : Type 0) : Type 0 where
  leaf : Tree A
  node : Tree A → A → ℕ → Tree A → Tree A

-- The sign of a comparison.
pub data Sign : Type 0 where
  less same more : Sign

abbrev pub sign : ℤ → Sign
sign (negsuc n) = less
sign (pos zero) = same
sign (pos (suc n)) = more

-- `maxInt`
unfoldable pub max_int : ℕ → ℕ → ℕ
max_int a b = if ltb b a then a else b

module _ {A : Type 0} where
  -- `nodeHeight`
  abbrev pub height : Tree A → ℕ
  height leaf = 0
  height (node l v h r) = h

  -- `getBalance`
  abbrev pub balance : Tree A → ℤ
  balance leaf = pos 0
  balance (node l v h r) = sub_ℕ (height l) (height r)

  -- `node->height = maxInt(nodeHeight(node->left), nodeHeight(node->right)) + 1`
  abbrev pub with_height : Tree A → A → Tree A → Tree A
  with_height l v r = node l v (max_int (height l) (height r) + 1) r

  -- `rotateRight`; the callers pass a node with a left child, and no other call changes anything
  unfoldable pub rotate_right : Tree A → Tree A
  rotate_right (node (node a x i b) y h c) = with_height a x (with_height b y c)
  rotate_right t = t

  -- `rotateLeft`; the callers pass a node with a right child
  unfoldable pub rotate_left : Tree A → Tree A
  rotate_left (node a x h (node b y i c)) = with_height (with_height a x b) y c
  rotate_left t = t

  abbrev pub left_of : Tree A → Tree A
  left_of leaf = leaf
  left_of (node l v h r) = l

  abbrev pub right_of : Tree A → Tree A
  right_of leaf = leaf
  right_of (node l v h r) = r

  -- `NODE->left = rotateLeft(NODE->left)`
  abbrev pub turn_left_child : Tree A → Tree A
  turn_left_child leaf = leaf
  turn_left_child (node l v h r) = node (rotate_left l) v h r

  -- `NODE->right = rotateRight(NODE->right)`
  abbrev pub turn_right_child : Tree A → Tree A
  turn_right_child leaf = leaf
  turn_right_child (node l v h r) = node l v h (rotate_right r)

  -- `balance > 1`, `balance < -1`
  abbrev pub leans_left : Tree A → Bool
  leans_left t = ltb_ℤ (pos 1) (balance t)

  abbrev pub leans_right : Tree A → Bool
  leans_right t = ltb_ℤ (balance t) (negsuc 0)

  -- `minValueNode(NODE)->data`, at a node
  unfoldable pub min_value : Tree A → A → A
  min_value leaf v = v
  min_value (node l w h r) v = min_value l w

  -- The end of `removeRecursive`, from the new height on.
  unfoldable pub remove_fix : Tree A → Tree A
  remove_fix t =
      if leans_left t && leb_ℤ (pos 0) (balance (left_of t))
      then rotate_right t
      else if leans_left t && ltb_ℤ (balance (left_of t)) (pos 0)
      then rotate_right (turn_left_child t)
      else if leans_right t && leb_ℤ (balance (right_of t)) (pos 0)
      then rotate_left t
      else if leans_right t && ltb_ℤ (pos 0) (balance (right_of t))
      then rotate_left (turn_right_child t)
      else t

  -- The branch of `removeRecursive` that has found the value. With two children the root takes the
  -- least value `m` of the right one; `moved` is what removing it there returns.
  unfoldable pub remove_root : Tree A → Tree A → A → Tree A × Bool → Tree A × Bool
  remove_root leaf leaf m moved = (leaf, true)
  remove_root leaf (node l v h r) m moved = (remove_fix (with_height l v r), true)
  remove_root (node l v h r) leaf m moved = (remove_fix (with_height l v r), true)
  remove_root (node l v h r) (node a b c d) m moved =
      (remove_fix (with_height (node l v h r) m moved.0), moved.1)

  -- `inorderRecursive` with a visitor that appends: the values in the order of the visits
  unfoldable pub inorder : Tree A → List A
  inorder leaf = []
  inorder (node l v h r) = inorder l ++ v ∷ inorder r

  -- `inorderRecursive`; the visitor acts on a state that stands for USER_DATA
  unfoldable pub inorder_recursive : {S : Type 0} → (A → S → S) → Tree A → S → S
  inorder_recursive visit leaf s = s
  inorder_recursive visit (node l v h r) s =
      inorder_recursive visit r (visit v (inorder_recursive visit l s))

  -- `destroySubtree` for a tree on the heap: the nodes freed, in order
  unfoldable pub destroy_subtree : Tree A → List A
  destroy_subtree leaf = []
  destroy_subtree (node l v h r) = destroy_subtree l ++ (destroy_subtree r ++ v ∷ [])

module _ {A : Type 0} (compare : A → A → ℤ) where
  abbrev pub order : A → A → Sign
  order a b = sign (compare a b)

  -- `compare(VALUE_PTR, node->data) < 0`, and `> 0`
  abbrev pub goes_left : A → Tree A → Bool
  goes_left x leaf = false
  goes_left x (node l v h r) = elim (order x v) [ less ↦ true | _ ↦ false ]

  abbrev pub goes_right : A → Tree A → Bool
  goes_right x leaf = false
  goes_right x (node l v h r) = elim (order x v) [ more ↦ true | _ ↦ false ]

  -- The end of `insertRecursive`, from the balance on.
  unfoldable pub insert_fix : A → Tree A → Tree A
  insert_fix x t =
      if leans_left t && goes_left x (left_of t)
      then rotate_right t
      else if leans_right t && goes_right x (right_of t)
      then rotate_left t
      else if leans_left t && goes_right x (left_of t)
      then rotate_right (turn_left_child t)
      else if leans_right t && goes_left x (right_of t)
      then rotate_left (turn_right_child t)
      else t

  -- `createNode`; `granted` says whether its allocation succeeds, and NULL is returned if not
  unfoldable pub create_node : Bool → A → Tree A
  create_node granted x = if granted then node leaf x 1 leaf else leaf

  -- `insertRecursive`, with what it stores through OUT_INSERTED
  unfoldable pub insert_recursive : Bool → Tree A → A → Tree A × Bool
  unfolding insert_fix create_node
  insert_recursive granted leaf x = (create_node granted x, true)
  insert_recursive granted (node l v h r) x = elim (order x v) [
    | less ↦
        let (l', inserted) = insert_recursive granted l x in
        (insert_fix x (with_height l' v r), inserted)
    | more ↦
        let (r', inserted) = insert_recursive granted r x in
        (insert_fix x (with_height l v r'), inserted)
    | same ↦ (node l v h r, false)
  ]

  -- `removeRecursive`, with what it stores through OUT_REMOVED
  unfoldable pub remove_recursive : Tree A → A → Tree A × Bool
  remove_recursive leaf x = (leaf, false)
  remove_recursive (node l v h r) x = elim (order x v) [
    | less ↦ let (l', removed) = remove_recursive l x in (remove_fix (with_height l' v r), removed)
    | more ↦ let (r', removed) = remove_recursive r x in (remove_fix (with_height l v r'), removed)
    | same ↦ remove_root l r (min_value r v) (remove_recursive r (min_value r v))
  ]

  -- the loop of `justOrderedSetFind`: the value found
  unfoldable pub find_from : Tree A → A → Option A
  find_from leaf x = none
  find_from (node l v h r) x = elim (order x v) [
    | same ↦ some v
    | less ↦ find_from l x
    | more ↦ find_from r x
  ]

-- `JustAVLTree`; the element size and the tag are not kept.
pub record OrderedSet (A : Type 0) : Type 0 where
  pub root : Tree A
  pub size : ℕ
  pub compare : A → A → ℤ
  pub linear : Bool

module _ {A : Type 0} where
  -- `justOrderedSetCreate`; `default` is `defaultMemcmp`
  unfoldable pub create : (A → A → ℤ) → Option (A → A → ℤ) → Bool → OrderedSet A
  create default none linear = record { root = leaf; size = 0; compare = default; linear = linear }
  create default (some c) linear = record { root = leaf; size = 0; compare = c; linear = linear }

  -- `justOrderedSetInsert`; `granted` is the outcome of the one allocation it may make
  unfoldable pub insert : Bool → OrderedSet A → A → Bool × OrderedSet A
  insert granted t x =
      let (root, inserted) = insert_recursive t.compare granted t.root x in
      (inserted, record t { root = root; size = if inserted then add_size t.size 1 else t.size })

  -- `justOrderedSetRemove`
  unfoldable pub remove : OrderedSet A → A → Bool × OrderedSet A
  remove t x = elim t.root [
    | leaf ↦ (false, t)
    | node l v h r ↦
        let (root, removed) = remove_recursive t.compare t.root x in
        (removed, record t { root = root; size = if removed then sub_size t.size 1 else t.size })
  ]

  -- `justOrderedSetFind`, `justOrderedSetContains`, `justOrderedSetSize`, `justOrderedSetIsEmpty`
  unfoldable pub find : OrderedSet A → A → Option A
  find t x = find_from t.compare t.root x

  unfoldable pub contains : OrderedSet A → A → Bool
  contains t x = is_some (find t x)

  unfoldable pub size_of : OrderedSet A → ℕ
  size_of t = t.size

  unfoldable pub is_empty : OrderedSet A → Bool
  is_empty t = t.size == 0

  -- `justOrderedSetTraverseInorder`
  unfoldable pub traverse_inorder : {S : Type 0} → OrderedSet A → (A → S → S) → S → S
  traverse_inorder t visit s = inorder_recursive visit t.root s

  -- `justOrderedSetClear`, and `justOrderedSetDestroy`, whose statements are the same; the nodes
  -- that are freed are those of a tree without a linear allocator
  unfoldable pub clear : OrderedSet A → OrderedSet A × List A
  clear t = (record t { root = leaf; size = 0 }, (if t.linear then [] else destroy_subtree t.root))
