-- ===== src/OrderedSet/Shrink.antt =====
-- `removeRecursive` keeps the tree balanced.
use native.Mathlib.Decide.{dec_le}
use just_library.Base.{ℕ, ◌+◌, ◌≤◌, ◌≡◌, refl, sym, ap, subst, arith, Bool}
use just_library.Base.Int.{ℤ}
use just_library.OrderedSet.{
  Tree, leaf, node, height, with_height, remove_fix, remove_root, remove_recursive, min_value, Sign,
  less, same, more, order,
}
use just_library.OrderedSet.Balance.{IsBalanced, max_int-cases}
use just_library.OrderedSet.Repair.{remove_fix-Fixed, remove_fix-even}

module _ {A : Type 0} where
  -- Balanced, and as high as `t` or one lower.
  abbrev pub Shrunk : Tree A → Tree A → Type 0
  Shrunk t u = IsBalanced u × (height u ≤ height t) × (height t ≤ height u + 1)

  -- One side is as it was and the other has shrunk.
  shrink_left :
      (l : Tree A) (v w : A) (h : ℕ) (r l' : Tree A)
      → IsBalanced (node l v h r)
      → Shrunk l l'
      → Shrunk (node l v h r) (remove_fix (with_height l' w r))
  shrink_left l v w h r l' (bl, br, eh, p, q) (bl', lo, hi) =
      let m = max_int-cases (height l) (height r) in
      let m' = max_int-cases (height l') (height r) in
      let (balanced, low, high) = remove_fix-Fixed l' w r bl' br (omega arith) (omega arith) in
      elim (dec_le (height r) (height l' + 1)) [
        | yes n ↦
            let e = remove_fix-even l' w r (omega arith) n in
            (balanced, omega (arith, high), omega (arith, ap height e))
        | no n ↦ (balanced, omega (arith, high), omega (arith, low))
      ]

  shrink_right :
      (l : Tree A) (v w : A) (h : ℕ) (r r' : Tree A)
      → IsBalanced (node l v h r)
      → Shrunk r r'
      → Shrunk (node l v h r) (remove_fix (with_height l w r'))
  shrink_right l v w h r r' (bl, br, eh, p, q) (br', lo, hi) =
      let m = max_int-cases (height l) (height r) in
      let m' = max_int-cases (height l) (height r') in
      let (balanced, low, high) = remove_fix-Fixed l w r' bl br' (omega arith) (omega arith) in
      elim (dec_le (height l) (height r' + 1)) [
        | yes n ↦
            let e = remove_fix-even l w r' n (omega arith) in
            (balanced, omega (arith, high), omega (arith, ap height e))
        | no n ↦ (balanced, omega (arith, high), omega (arith, low))
      ]

  -- The only child takes the place of the node.
  lone :
      (t : Tree A) (l : Tree A) (v : A) (h : ℕ) (r : Tree A)
      → IsBalanced (node l v h r)
      → height t ≡ h + 1
      → Shrunk t (remove_fix (with_height l v r))
  lone t l v h r (bl, br, eh, p, q) e =
      let m = max_int-cases (height l) (height r) in
      let s = remove_fix-even l v r p q in
      subst (Shrunk t) (sym s) ((bl, br, refl, p, q), omega arith, omega arith)

  remove_root-Shrunk :
      (l : Tree A) (v : A) (h : ℕ) (r : Tree A) (m : A) (moved : Tree A × Bool)
      → IsBalanced (node l v h r)
      → Shrunk r moved.0
      → Shrunk (node l v h r) (remove_root l r m moved).0
  unfolding remove_root
  remove_root-Shrunk leaf v h leaf m moved (bl, br, eh, p, q) s =
      let k = max_int-cases 0 0 in (tt, omega arith, omega arith)
  remove_root-Shrunk leaf v h (node a x i b) m moved (bl, br, eh, p, q) s =
      let k = max_int-cases 0 i in lone (node leaf v h (node a x i b)) a x i b br (omega arith)
  remove_root-Shrunk (node a x i b) v h leaf m moved (bl, br, eh, p, q) s =
      let k = max_int-cases i 0 in lone (node (node a x i b) v h leaf) a x i b bl (omega arith)
  remove_root-Shrunk (node a x i b) v h (node c y j d) m moved balanced s =
      shrink_right (node a x i b) v m h (node c y j d) moved.0 balanced s

  removed-Shrunk :
      (l : Tree A) (v : A) (h : ℕ) (r : Tree A) (m : A) (from_l from_r moved : Tree A × Bool)
      (s : Sign)
      → IsBalanced (node l v h r)
      → Shrunk l from_l.0
      → Shrunk r from_r.0
      → Shrunk r moved.0
      → Shrunk
          (node l v h r)
          (elim s as (λ s. Tree A × Bool) [
            | less ↦ (remove_fix (with_height from_l.0 v r), from_l.1)
            | more ↦ (remove_fix (with_height l v from_r.0), from_r.1)
            | same ↦ remove_root l r m moved
          ]).0
  removed-Shrunk l v h r m from_l from_r moved less b a c d = shrink_left l v v h r from_l.0 b a
  removed-Shrunk l v h r m from_l from_r moved more b a c d = shrink_right l v v h r from_r.0 b c
  removed-Shrunk l v h r m from_l from_r moved same b a c d = remove_root-Shrunk l v h r m moved b d

  -- `removeRecursive` on a balanced tree: the tree stays balanced, with right heights, and is as high
  -- as before or one lower.
  pub remove_recursive-Shrunk :
      (compare : A → A → ℤ) (t : Tree A) (x : A)
      → IsBalanced t
      → Shrunk t (remove_recursive compare t x).0
  unfolding remove_recursive
  remove_recursive-Shrunk compare leaf x b = (tt, omega arith, omega arith)
  remove_recursive-Shrunk compare (node l v h r) x b =
      removed-Shrunk l v h r (min_value r v) (remove_recursive compare l x)
        (remove_recursive compare r x) (remove_recursive compare r (min_value r v))
        (order compare x v) b (remove_recursive-Shrunk compare l x b.0)
        (remove_recursive-Shrunk compare r x b.1)
        (remove_recursive-Shrunk compare r (min_value r v) b.1)
