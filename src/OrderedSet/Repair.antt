-- ===== src/OrderedSet/Repair.antt =====
-- What the end of `removeRecursive` makes of two balanced sides.
use native.Mathlib.Decide.{dec_le}
use just_library.Base.{ℕ, ◌+◌, ◌≤◌, ◌<◌, ◌≡◌, refl, arith}
use just_library.OrderedSet.{
  Tree, leaf, node, height, max_int, with_height, remove_fix, rotate_right, rotate_left,
}
use just_library.OrderedSet.Balance.{
  IsBalanced, Fixed, single_right, single_left, double, fix-even, max_int-cases, left_heavy,
  not_left_heavy, right_heavy, not_right_heavy, not_negative, negative, not_positive, positive,
}

module _ {A : Type 0} where
  -- a left side that is two higher, and leans to the right
  fix_left_right :
      (a : Tree A) (x : A) (i : ℕ) (b : Tree A) (v : A) (r : Tree A)
      → IsBalanced a
      → IsBalanced b
      → i ≡ max_int (height a) (height b) + 1
      → height a ≤ height b + 1
      → height b ≤ height a + 1
      → IsBalanced r
      → i ≡ height r + 2
      → height a < height b
      → Fixed i (height r) (remove_fix (with_height (node a x i b) v r))
  unfolding remove_fix rotate_right rotate_left
  fix_left_right a x i leaf v r ba bb ei p q br e d = absurd (omega arith)
  fix_left_right a x i (node b y j c) v r ba (bb, bc, ej, p', q') ei p q br e d =
      let s = negative (height a) j d in
      let m = max_int-cases (height a) j in
      let m' = max_int-cases i (height r) in
      let (balanced, tall) =
        double a x b y c v r i j (height a) ba bb bc br refl (omega arith) ej (omega arith)
          (omega arith) p' q' in
      simp (left_heavy i (height r) (omega arith), s.0, s.1)
        (balanced, omega (arith, tall), omega (arith, tall))

  -- a left side that is two higher
  fix-left :
      (l : Tree A) (v : A) (r : Tree A)
      → IsBalanced l
      → IsBalanced r
      → height l ≡ height r + 2
      → Fixed (height l) (height r) (remove_fix (with_height l v r))
  unfolding remove_fix rotate_right rotate_left
  fix-left leaf v r bl br e = absurd (omega arith)
  fix-left (node a x i b) v r (ba, bb, ei, p, q) br e = elim (dec_le (height b) (height a)) [
    | yes d ↦
        let s = not_negative (height a) (height b) d in
        simp (left_heavy i (height r) (omega arith), s.0)
          (single_right a x b v r i ba bb br ei e d p)
    | no d ↦ fix_left_right a x i b v r ba bb ei p q br e (omega arith)
  ]

  -- the same on the right
  fix_right_left :
      (l : Tree A) (v : A) (b : Tree A) (y : A) (i : ℕ) (d : Tree A)
      → IsBalanced l
      → IsBalanced b
      → IsBalanced d
      → i ≡ max_int (height b) (height d) + 1
      → height b ≤ height d + 1
      → i ≡ height l + 2
      → height d < height b
      → Fixed (height l) i (remove_fix (with_height l v (node b y i d)))
  unfolding remove_fix rotate_right rotate_left
  fix_right_left l v leaf y i d bl bb bd ei p e t = absurd (omega arith)
  fix_right_left l v (node b x j c) y i d bl (bb, bc, ej, p', q') bd ei p e t =
      let s = positive j (height d) t in
      let m = max_int-cases j (height d) in
      let m' = max_int-cases (height l) i in
      let (balanced, tall) =
        double l v b x c y d i j (height d) bl bb bc bd (omega arith) refl ej (omega arith)
          (omega arith) p' q' in
      simp
        (
          not_left_heavy (height l) i (omega arith),
          right_heavy (height l) i (omega arith),
          s.0,
          s.1,
        )
        (balanced, omega (arith, tall), omega (arith, tall))

  fix-right :
      (l : Tree A) (v : A) (r : Tree A)
      → IsBalanced l
      → IsBalanced r
      → height r ≡ height l + 2
      → Fixed (height l) (height r) (remove_fix (with_height l v r))
  unfolding remove_fix rotate_right rotate_left
  fix-right l v leaf bl br e = absurd (omega arith)
  fix-right l v (node b y i d) bl (bb, bd, ei, p, q) e = elim (dec_le (height b) (height d)) [
    | yes t ↦
        simp
          (
            not_left_heavy (height l) i (omega arith),
            right_heavy (height l) i (omega arith),
            not_positive (height b) (height d) t,
          )
          (single_left l v b y d i bl bb bd ei e t q)
    | no t ↦ fix_right_left l v b y i d bl bb bd ei p e (omega arith)
  ]

  -- What the repair makes of two balanced sides that differ by at most two.
  pub remove_fix-Fixed :
      (l : Tree A) (v : A) (r : Tree A)
      → IsBalanced l
      → IsBalanced r
      → height l ≤ height r + 2
      → height r ≤ height l + 2
      → Fixed (height l) (height r) (remove_fix (with_height l v r))
  remove_fix-Fixed l v r bl br p q = elim (dec_le (height l) (height r + 1)) [
    | no n ↦ fix-left l v r bl br (omega arith)
    | yes n ↦ elim (dec_le (height r) (height l + 1)) [
      | no k ↦ fix-right l v r bl br (omega arith)
      | yes k ↦ fix-even l v r bl br n k
    ]
  ]

  pub remove_fix-even :
      (l : Tree A) (v : A) (r : Tree A)
      → height l ≤ height r + 1
      → height r ≤ height l + 1
      → remove_fix (with_height l v r) ≡ with_height l v r
  unfolding remove_fix
  remove_fix-even l v r p q =
      simp (not_left_heavy (height l) (height r) p, not_right_heavy (height l) (height r) q) refl
