-- ===== src/OrderedSet/Insert.antt =====
-- `justOrderedSetInsert` and `justOrderedSetFind` against the sorted list of the values.
use just_library.Base.{
  ℕ, ◌≡◌, refl, sym, ap, ◌∙◌, Bool, true, false, List, ◌∷◌, ◌++◌, append_assoc, if◌then◌else◌, ◌⊎◌,
  inl, inr,
}
use just_library.Base.Int.{ℤ}
use just_library.OrderedSet.{
  Tree, leaf, node, Sign, less, same, more, order, with_height, rotate_left, rotate_right,
  turn_left_child, turn_right_child, inorder, insert_fix, create_node, insert_recursive, find_from,
}
use just_library.OrderedSet.Spec.{
  IsOrder, IsSorted, list_insert, list_find, Sorted-left, Sorted-append_left, Sorted-append_right,
  list_insert-less, list_insert-more, list_insert-same, list_find-less, list_find-more,
  list_find-same,
}

-- The three outcomes of a comparison.
pub sign_cases : (g : Sign) → (g ≡ less) ⊎ ((g ≡ same) ⊎ (g ≡ more))
sign_cases less = inl refl
sign_cases same = inr (inl refl)
sign_cases more = inr (inr refl)

module _ {A : Type 0} where
  -- The rotations keep the order of the values.
  pub inorder-rotate_right : (t : Tree A) → inorder (rotate_right t) ≡ inorder t
  unfolding inorder rotate_right
  inorder-rotate_right leaf = refl
  inorder-rotate_right (node leaf y h c) = refl
  inorder-rotate_right (node (node a x i b) y h c) =
      sym (append_assoc (inorder a) (x ∷ inorder b) (y ∷ inorder c))

  pub inorder-rotate_left : (t : Tree A) → inorder (rotate_left t) ≡ inorder t
  unfolding inorder rotate_left
  inorder-rotate_left leaf = refl
  inorder-rotate_left (node a x h leaf) = refl
  inorder-rotate_left (node a x h (node b y i c)) =
      append_assoc (inorder a) (x ∷ inorder b) (y ∷ inorder c)

  pub inorder-turn_left_child : (t : Tree A) → inorder (turn_left_child t) ≡ inorder t
  unfolding inorder
  inorder-turn_left_child leaf = refl
  inorder-turn_left_child (node l v h r) = ap (λ xs. xs ++ v ∷ inorder r) (inorder-rotate_left l)

  pub inorder-turn_right_child : (t : Tree A) → inorder (turn_right_child t) ≡ inorder t
  unfolding inorder
  inorder-turn_right_child leaf = refl
  inorder-turn_right_child (node l v h r) = ap (λ xs. inorder l ++ v ∷ xs) (inorder-rotate_right r)

  -- Whichever branch is taken, the values are the same.
  pub inorder-if :
      (b : Bool) (t u : Tree A) {xs : List A}
      → inorder t ≡ xs
      → inorder u ≡ xs
      → inorder (if b then t else u) ≡ xs
  inorder-if true t u p q = p
  inorder-if false t u p q = q

module _ {A : Type 0} (compare : A → A → ℤ) where
  inorder-insert_fix : (x : A) (t : Tree A) → inorder (insert_fix compare x t) ≡ inorder t
  unfolding insert_fix
  inorder-insert_fix x t = inorder-if _ _ _ (inorder-rotate_right t) (
      inorder-if _ _ _ (inorder-rotate_left t) (
        inorder-if _ _ _ (inorder-rotate_right (turn_left_child t) ∙ inorder-turn_left_child t) (
          inorder-if _ _ _ (inorder-rotate_left (turn_right_child t) ∙ inorder-turn_right_child t)
            refl)))

module _ {A : Type 0} {compare : A → A → ℤ} (o : IsOrder compare) where
  -- One step of `insertRecursive`, by the outcome of the comparison.
  module _ (granted : Bool) (l : Tree A) (v : A) (h : ℕ) (r : Tree A) (x : A) where
    insert-less :
        order compare x v ≡ less
        → insert_recursive compare granted (node l v h r) x ≡ (
          insert_fix compare x (with_height (insert_recursive compare granted l x).0 v r),
          (insert_recursive compare granted l x).1,
        )
    unfolding insert_recursive
    insert-less e = rw (e, insert_recursive)

    insert-more :
        order compare x v ≡ more
        → insert_recursive compare granted (node l v h r) x ≡ (
          insert_fix compare x (with_height l v (insert_recursive compare granted r x).0),
          (insert_recursive compare granted r x).1,
        )
    unfolding insert_recursive
    insert-more e = rw (e, insert_recursive)

    insert-same :
        order compare x v ≡ same
        → insert_recursive compare granted (node l v h r) x ≡ (node l v h r, false)
    unfolding insert_recursive
    insert-same e = rw (e, insert_recursive)

  -- `insertRecursive`, when its allocation is granted, does to the tree what insertion does to the
  -- sorted list of its values, and reports the same.
  pub inorder-insert_recursive :
      (t : Tree A) (x : A)
      → IsSorted compare (inorder t)
      → let (t', inserted) = insert_recursive compare true t x in
        (inorder t', inserted) ≡ list_insert compare x (inorder t)
  unfolding inorder
  inorder-insert_recursive leaf x s = unfold insert_recursive create_node list_insert in refl
  inorder-insert_recursive (node l v h r) x s = elim (sign_cases (order compare x v)) [
    | inl e ↦
        let ih = inorder-insert_recursive l x (Sorted-append_left o (inorder l) _ s) in
        rw (
          insert-less true l v h r x e,
          inorder-insert_fix,
          list_insert-less o x v (inorder r) (inorder l) e,
          ← ih,
        )
    | inr (inl e) ↦ rw (
      insert-same true l v h r x e,
      list_insert-same o x v (inorder r) (inorder l) (Sorted-left o (inorder l) v _ s) e,
    )
    | inr (inr e) ↦
        let ih =
          inorder-insert_recursive r x (Sorted-append_right o (inorder l) (v ∷ inorder r) s).1 in
        rw (
          insert-more true l v h r x e,
          inorder-insert_fix,
          list_insert-more o x v (inorder r) (inorder l) (Sorted-left o (inorder l) v _ s) e,
          ← ih,
        )
  ]

  -- The loop of `justOrderedSetFind` finds in a search tree what the sorted list holds.
  pub find_from-list_find :
      (t : Tree A) (x : A)
      → IsSorted compare (inorder t)
      → find_from compare t x ≡ list_find compare x (inorder t)
  unfolding inorder find_from list_find
  find_from-list_find leaf x s = refl
  find_from-list_find (node l v h r) x s = elim (sign_cases (order compare x v)) [
    | inl e ↦
        rw (list_find-less o x v (inorder r) (inorder l) e)
          (rw (e, find_from) (find_from-list_find l x (Sorted-append_left o (inorder l) _ s)))
    | inr (inl e) ↦
        rw (list_find-same o x v (inorder r) (inorder l) (Sorted-left o (inorder l) v _ s) e)
          (rw (e, find_from))
    | inr (inr e) ↦
        rw (list_find-more o x v (inorder r) (inorder l) (Sorted-left o (inorder l) v _ s) e) (
          rw (e, find_from)
            (find_from-list_find r x (Sorted-append_right o (inorder l) (v ∷ inorder r) s).1))
  ]

  -- When the allocation of the node is refused, `insertRecursive` leaves the values of the tree as
  -- they were, and still reports an insertion exactly where no equal value was there.
  pub insert_recursive-refused :
      (t : Tree A) (x : A)
      → IsSorted compare (inorder t)
      → let (t', inserted) = insert_recursive compare false t x in
        (inorder t' ≡ inorder t) × (inserted ≡ (list_insert compare x (inorder t)).1)
  unfolding inorder
  insert_recursive-refused leaf x s =
      unfold insert_recursive create_node list_insert in (refl, refl)
  insert_recursive-refused (node l v h r) x s = elim (sign_cases (order compare x v)) [
    | inl e ↦
        let (kept, told) = insert_recursive-refused l x (Sorted-append_left o (inorder l) _ s) in
        rw
          (
            insert-less false l v h r x e,
            inorder-insert_fix,
            list_insert-less o x v (inorder r) (inorder l) e,
          )
          (ap (λ ys. ys ++ v ∷ inorder r) kept, told)
    | inr (inl e) ↦
        rw
          (
            insert-same false l v h r x e,
            list_insert-same o x v (inorder r) (inorder l) (Sorted-left o (inorder l) v _ s) e,
          )
          (refl, refl)
    | inr (inr e) ↦
        let (kept, told) =
          insert_recursive-refused r x (Sorted-append_right o (inorder l) (v ∷ inorder r) s).1 in
        rw
          (
            insert-more false l v h r x e,
            inorder-insert_fix,
            list_insert-more o x v (inorder r) (inorder l) (Sorted-left o (inorder l) v _ s) e,
          )
          (ap (λ ys. inorder l ++ v ∷ ys) kept, told)
  ]
