-- ===== src/OrderedSet/Remove.antt =====
-- `justOrderedSetRemove` against the sorted list of the values.
use just_library.Base.{ℕ, ◌≡◌, refl, ap, ◌∙◌, Bool, true, List, ◌∷◌, ◌++◌, append-nil, inl, inr}
use just_library.Base.Int.{ℤ}
use just_library.OrderedSet.{
  Tree, leaf, node, less, same, more, order, with_height, turn_left_child, turn_right_child,
  inorder, min_value, remove_fix, remove_root, remove_recursive,
}
use just_library.OrderedSet.Spec.{
  IsOrder, IsSorted, list_remove, Sorted-left, Sorted-append_left, Sorted-append_right,
  list_remove-less, list_remove-more, list_remove-same,
}
use just_library.OrderedSet.Insert.{
  sign_cases, inorder-if, inorder-rotate_left, inorder-rotate_right, inorder-turn_left_child,
  inorder-turn_right_child,
}

module _ {A : Type 0} where
  inorder-remove_fix : (t : Tree A) → inorder (remove_fix t) ≡ inorder t
  unfolding remove_fix
  inorder-remove_fix t = inorder-if _ _ _ (inorder-rotate_right t) (
      inorder-if _ _ _ (inorder-rotate_right (turn_left_child t) ∙ inorder-turn_left_child t) (
        inorder-if _ _ _ (inorder-rotate_left t) (
          inorder-if _ _ _ (inorder-rotate_left (turn_right_child t) ∙ inorder-turn_right_child t)
            refl)))

  -- The least value is the first of the list.
  min_value-first :
      (l : Tree A) (v : A) (h : ℕ) (r : Tree A) (d : A)
      → (rest : List A) × (inorder (node l v h r) ≡ min_value (node l v h r) d ∷ rest)
  unfolding inorder min_value
  min_value-first leaf v h r d = (inorder r, refl)
  min_value-first (node ll lv lh lr) v h r d =
      let (rest, e) = min_value-first ll lv lh lr v in
      (rest ++ v ∷ inorder r, ap (λ xs. xs ++ v ∷ inorder r) e)

module _ {A : Type 0} {compare : A → A → ℤ} (o : IsOrder compare) where
  list_remove_first : (x : A) (xs : List A) → list_remove compare x (x ∷ xs) ≡ (xs, true)
  unfolding list_remove
  list_remove_first x xs = rw (o.order_refl x, list_remove)

  -- What taking the root out does, given that removing the least value of the right subtree there
  -- does what it does to the list.
  inorder-remove_root :
      (l r : Tree A) (v : A) (moved : Tree A × Bool)
      → ◌≡◌ {A = List A × Bool}
          (inorder moved.0, moved.1)
          (list_remove compare (min_value r v) (inorder r))
      → let (t', removed) = remove_root l r (min_value r v) moved in
        ◌≡◌ {A = List A × Bool} (inorder t', removed) (inorder l ++ inorder r, true)
  unfolding inorder remove_root
  inorder-remove_root leaf leaf v moved e = refl
  inorder-remove_root leaf (node rl w h rr) v moved e =
      rw (inorder-remove_fix (with_height rl w rr))
  inorder-remove_root (node ll w h lr) leaf v moved e =
      rw (inorder-remove_fix (with_height ll w lr), append-nil)
  inorder-remove_root (node ll w h lr) (node rl u i rr) v moved e =
      let m = min_value (node rl u i rr) v in
      let (rest, first) = min_value-first rl u i rr v in
      let taken : ◌≡◌ {A = List A × Bool} (inorder moved.0, moved.1) (rest, true) =
        e ∙ ap (list_remove compare m) first ∙ list_remove_first m rest in
      rw (inorder-remove_fix (with_height (node ll w h lr) m moved.0), first)
        (ap (λ p. ((inorder ll ++ w ∷ inorder lr) ++ m ∷ p.0, p.1)) taken)

  -- One step of `removeRecursive`, by the outcome of the comparison.
  module _ (l : Tree A) (v : A) (h : ℕ) (r : Tree A) (x : A) where
    remove-less :
        order compare x v ≡ less
        → remove_recursive compare (node l v h r) x ≡ (
          remove_fix (with_height (remove_recursive compare l x).0 v r),
          (remove_recursive compare l x).1,
        )
    unfolding remove_recursive
    remove-less e = rw (e, remove_recursive)

    remove-more :
        order compare x v ≡ more
        → remove_recursive compare (node l v h r) x ≡ (
          remove_fix (with_height l v (remove_recursive compare r x).0),
          (remove_recursive compare r x).1,
        )
    unfolding remove_recursive
    remove-more e = rw (e, remove_recursive)

    remove-same :
        order compare x v ≡ same
        → remove_recursive compare (node l v h r) x
          ≡ remove_root l r (min_value r v) (remove_recursive compare r (min_value r v))
    unfolding remove_recursive
    remove-same e = rw (e, remove_recursive)

  -- `removeRecursive` does to the tree what deletion does to the sorted list of its values, and
  -- reports the same.
  pub inorder-remove_recursive :
      (t : Tree A) (x : A)
      → IsSorted compare (inorder t)
      → let (t', removed) = remove_recursive compare t x in
        (inorder t', removed) ≡ list_remove compare x (inorder t)
  unfolding inorder
  inorder-remove_recursive leaf x s = unfold remove_recursive list_remove in refl
  inorder-remove_recursive (node l v h r) x s = elim (sign_cases (order compare x v)) [
    | inl e ↦
        let ih = inorder-remove_recursive l x (Sorted-append_left o (inorder l) _ s) in
        rw (
          remove-less l v h r x e,
          inorder-remove_fix,
          list_remove-less o x v (inorder r) (inorder l) e,
          ← ih,
        )
    | inr (inl e) ↦
        let right = (Sorted-append_right o (inorder l) (v ∷ inorder r) s).1 in
        rw
          (
            remove-same l v h r x e,
            list_remove-same o x v (inorder r) (inorder l) (Sorted-left o (inorder l) v _ s) e,
          )
          (inorder-remove_root l r v (remove_recursive compare r (min_value r v))
            (inorder-remove_recursive r (min_value r v) right))
    | inr (inr e) ↦
        let ih =
          inorder-remove_recursive r x (Sorted-append_right o (inorder l) (v ∷ inorder r) s).1 in
        rw (
          remove-more l v h r x e,
          inorder-remove_fix,
          list_remove-more o x v (inorder r) (inorder l) (Sorted-left o (inorder l) v _ s) e,
          ← ih,
        )
  ]
