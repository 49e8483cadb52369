-- ===== src/OrderedSet/Grow.antt =====
-- `insertRecursive` keeps the tree balanced.
use native.Mathlib.Decide.{dec_le}
use just_library.Base.{
  ℕ, ◌+◌, ◌≤◌, ◌<◌, ◌≡◌, ◌⊎◌, refl, sym, ap, subst, true, false, arith, inl, inr, Bool,
}
use just_library.Base.Int.{ℤ}
use just_library.OrderedSet.{
  Tree, leaf, node, height, max_int, with_height, insert_fix, insert_recursive, create_node, Sign,
  less, same, more, order, rotate_right, rotate_left, goes_left, goes_right,
}
use just_library.OrderedSet.Balance.{
  IsBalanced, max_int-cases, single_right, single_left, double, left_heavy, not_left_heavy,
  right_heavy, not_right_heavy,
}

module _ {A : Type 0} (compare : A → A → ℤ) (x : A) where
  -- higher on the side where `x` belongs
  abbrev Leans : Tree A → Type 0
  Leans leaf = ⊥
  Leans (node a w i b) =
      ((order compare x w ≡ less) × (height a ≡ height b + 1))
      ⊎ ((order compare x w ≡ more) × (height b ≡ height a + 1))

  -- Balanced, and as high as `t` or one higher, and then leaning to where `x` is.
  abbrev pub Grown : Tree A → Tree A → Type 0
  Grown t u =
      IsBalanced u
      × (height t ≤ height u)
      × (height u ≤ height t + 1)
      × (0 < height t → height u ≡ height t + 1 → Leans u)

  -- no repair where the sides differ by at most one
  insert_fix-even :
      (l : Tree A) (v : A) (r : Tree A)
      → height l ≤ height r + 1
      → height r ≤ height l + 1
      → insert_fix compare x (with_height l v r) ≡ with_height l v r
  unfolding insert_fix
  insert_fix-even l v r p q =
      simp (not_left_heavy (height l) (height r) p, not_right_heavy (height l) (height r) q) refl

  went_left :
      (a : Tree A) (w : A) (i : ℕ) (b : Tree A)
      → order compare x w ≡ less
      → (goes_left compare x (node a w i b) ≡ true) × (goes_right compare x (node a w i b) ≡ false)
  went_left a w i b o = (
    ap (λ (s : Sign). elim s [ less ↦ true | _ ↦ false ]) o,
    ap (λ (s : Sign). elim s [ more ↦ true | _ ↦ false ]) o,
  )

  went_right :
      (a : Tree A) (w : A) (i : ℕ) (b : Tree A)
      → order compare x w ≡ more
      → (goes_left compare x (node a w i b) ≡ false) × (goes_right compare x (node a w i b) ≡ true)
  went_right a w i b o = (
    ap (λ (s : Sign). elim s [ less ↦ true | _ ↦ false ]) o,
    ap (λ (s : Sign). elim s [ more ↦ true | _ ↦ false ]) o,
  )

  -- The repair of a left side that is two higher, since `x` went there.
  mended_left :
      (l : Tree A) (v : A) (r : Tree A)
      → IsBalanced l
      → IsBalanced r
      → height l ≡ height r + 2
      → Leans l
      → IsBalanced (insert_fix compare x (with_height l v r))
        × (height (insert_fix compare x (with_height l v r)) ≡ height l)
  unfolding insert_fix rotate_right rotate_left
  mended_left leaf v r bl br e s = absurd (omega arith)
  mended_left (node a w i b) v r bl br e (inl (o, d)) =
      let (ba, bb, ei, p, q) = bl in
      let m = max_int-cases (height a) (height b) in
      let m' = max_int-cases (height b) (height r) in
      let m'' = max_int-cases (height a) (max_int (height b) (height r) + 1) in
      let fixed = single_right a w b v r i ba bb br ei e (omega arith) p in
      simp (left_heavy i (height r) (omega arith), (went_left a w i b o).0) (fixed.0, omega arith)
  mended_left (node a w i leaf) v r bl br e (inr (o, d)) = absurd (omega arith)
  mended_left (node a w i (node b y j c)) v r bl br e (inr (o, d)) =
      let (ba, bn, ei, p, q) = bl in
      let (bb, bc, ej, p', q') = bn in
      let m = max_int-cases (height a) j in
      simp
        (
          left_heavy i (height r) (omega arith),
          not_right_heavy i (height r) (omega arith),
          (went_right a w i (node b y j c) o).0,
          (went_right a w i (node b y j c) o).1,
        )
        (double a w b y c v r i j (height a) ba bb bc br refl (omega arith) ej (omega arith)
          (omega arith) p' q')

  mended_right :
      (l : Tree A) (v : A) (r : Tree A)
      → IsBalanced l
      → IsBalanced r
      → height r ≡ height l + 2
      → Leans r
      → IsBalanced (insert_fix compare x (with_height l v r))
        × (height (insert_fix compare x (with_height l v r)) ≡ height r)
  unfolding insert_fix rotate_right rotate_left
  mended_right l v leaf bl br e s = absurd (omega arith)
  mended_right l v (node b w i d) bl br e (inr (o, t)) =
      let (bb, bd, ei, p, q) = br in
      let m = max_int-cases (height b) (height d) in
      let m' = max_int-cases (height l) (height b) in
      let m'' = max_int-cases (max_int (height l) (height b) + 1) (height d) in
      let fixed = single_left l v b w d i bl bb bd ei e (omega arith) q in
      simp
        (
          not_left_heavy (height l) i (omega arith),
          right_heavy (height l) i (omega arith),
          (went_right b w i d o).1,
        )
        (fixed.0, omega arith)
  mended_right l v (node leaf w i d) bl br e (inl (o, t)) = absurd (omega arith)
  mended_right l v (node (node b y j c) w i d) bl br e (inl (o, t)) =
      let (bn, bd, ei, p, q) = br in
      let (bb, bc, ej, p', q') = bn in
      let m = max_int-cases j (height d) in
      simp
        (
          not_left_heavy (height l) i (omega arith),
          right_heavy (height l) i (omega arith),
          (went_left (node b y j c) w i d o).0,
          (went_left (node b y j c) w i d o).1,
        )
        (double l v b y c w d i j (height d) bl bb bc bd (omega arith) refl ej (omega arith)
          (omega arith) p' q')

  -- The step of an insertion on the left.
  grow_left :
      (l : Tree A) (v : A) (h : ℕ) (r l' : Tree A)
      → order compare x v ≡ less
      → IsBalanced (node l v h r)
      → Grown l l'
      → Grown (node l v h r) (insert_fix compare x (with_height l' v r))
  grow_left l v h r l' o (bl, br, eh, p, q) (bl', lo, hi, lean) =
      let m = max_int-cases (height l) (height r) in
      let m' = max_int-cases (height l') (height r) in
      elim (dec_le (height l') (height r + 1)) [
        | yes n ↦ subst (Grown (node l v h r)) (sym (insert_fix-even l' v r n (omega arith))) (
          (bl', br, refl, n, omega arith),
          omega arith,
          omega arith,
          λ some_height grown. inl (o, omega arith),
        )
        | no n ↦
            let (balanced, tall) =
              mended_left l' v r bl' br (omega arith) (lean (omega arith) (omega arith)) in
            (
              balanced,
              omega (arith, tall),
              omega (arith, tall),
              λ some_height grown. absurd (omega (arith, tall)),
            )
      ]

  grow_right :
      (l : Tree A) (v : A) (h : ℕ) (r r' : Tree A)
      → order compare x v ≡ more
      → IsBalanced (node l v h r)
      → Grown r r'
      → Grown (node l v h r) (insert_fix compare x (with_height l v r'))
  grow_right l v h r r' o (bl, br, eh, p, q) (br', lo, hi, lean) =
      let m = max_int-cases (height l) (height r) in
      let m' = max_int-cases (height l) (height r') in
      elim (dec_le (height r') (height l + 1)) [
        | yes n ↦ subst (Grown (node l v h r)) (sym (insert_fix-even l v r' (omega arith) n)) (
          (bl, br', refl, omega arith, n),
          omega arith,
          omega arith,
          λ some_height grown. inr (o, omega arith),
        )
        | no n ↦
            let (balanced, tall) =
              mended_right l v r' bl br' (omega arith) (lean (omega arith) (omega arith)) in
            (
              balanced,
              omega (arith, tall),
              omega (arith, tall),
              λ some_height grown. absurd (omega (arith, tall)),
            )
      ]

  -- the step, by the sign of the comparison
  inserted-Grown :
      (l : Tree A) (v : A) (h : ℕ) (r : Tree A) (into_l into_r : Tree A × Bool) (s : Sign)
      → order compare x v ≡ s
      → IsBalanced (node l v h r)
      → Grown l into_l.0
      → Grown r into_r.0
      → Grown
          (node l v h r)
          (elim s as (λ s. Tree A × Bool) [
            | less ↦ (insert_fix compare x (with_height into_l.0 v r), into_l.1)
            | more ↦ (insert_fix compare x (with_height l v into_r.0), into_r.1)
            | same ↦ (node l v h r, false)
          ]).0
  inserted-Grown l v h r into_l into_r less o b gl gr = grow_left l v h r into_l.0 o b gl
  inserted-Grown l v h r into_l into_r more o b gl gr = grow_right l v h r into_r.0 o b gr
  inserted-Grown l v h r into_l into_r same o b gl gr =
      (b, omega arith, omega arith, λ some_height grown. absurd (omega arith))

  created-Grown : (granted : Bool) → Grown leaf (create_node compare granted x)
  unfolding create_node
  created-Grown true =
      let m = max_int-cases 0 0 in
      (
        (tt, tt, omega arith, omega arith, omega arith),
        omega arith,
        omega arith,
        λ l. absurd (omega arith),
      )
  created-Grown false = (tt, omega arith, omega arith, λ l. absurd (omega arith))

  pub insert_recursive-Grown :
      (granted : Bool) (t : Tree A)
      → IsBalanced t
      → Grown t (insert_recursive compare granted t x).0
  unfolding insert_recursive
  insert_recursive-Grown granted leaf b = created-Grown granted
  insert_recursive-Grown granted (node l v h r) b =
      inserted-Grown l v h r (insert_recursive compare granted l x)
        (insert_recursive compare granted r x) (order compare x v) refl b
        (insert_recursive-Grown granted l b.0) (insert_recursive-Grown granted r b.1)

  -- `insertRecursive` on a balanced tree, whether or not the node can be allocated: the tree stays
  -- balanced, with right heights, and is as high as before or one higher.
  pub insert_recursive-IsBalanced :
      (granted : Bool) (t : Tree A)
      → IsBalanced t
      → IsBalanced (insert_recursive compare granted t x).0
        × (height t ≤ height (insert_recursive compare granted t x).0)
        × (height (insert_recursive compare granted t x).0 ≤ height t + 1)
  insert_recursive-IsBalanced granted t b =
      let (balanced, low, high, lean) = insert_recursive-Grown granted t b in (balanced, low, high)
