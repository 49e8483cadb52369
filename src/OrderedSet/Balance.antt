-- ===== src/OrderedSet/Balance.antt =====
-- The AVL invariant: the stored heights are right, and the two sides differ by at most one.
use just_library.Base.{ℕ, ◌+◌, ◌≤◌, ◌<◌, ◌≡◌, refl, true, false, arith, ◌⊎◌}
use just_library.Base.Int.{pos, negsuc, sub_ℕ, ltb_ℤ, leb_ℤ}
use just_library.OrderedSet.{Tree, leaf, node, height, max_int, with_height, remove_fix}

-- The tests on the balance, as orders between heights.
pub left_heavy : (a b : ℕ) → b + 1 < a → ltb_ℤ (pos 1) (sub_ℕ a b) ≡ true
left_heavy a b h = ground arith

pub not_left_heavy : (a b : ℕ) → a ≤ b + 1 → ltb_ℤ (pos 1) (sub_ℕ a b) ≡ false
not_left_heavy a b h = ground arith

pub right_heavy : (a b : ℕ) → a + 1 < b → ltb_ℤ (sub_ℕ a b) (negsuc 0) ≡ true
right_heavy a b h = ground arith

pub not_right_heavy : (a b : ℕ) → b ≤ a + 1 → ltb_ℤ (sub_ℕ a b) (negsuc 0) ≡ false
not_right_heavy a b h = ground arith

pub not_negative :
    (a b : ℕ) → b ≤ a → (leb_ℤ (pos 0) (sub_ℕ a b) ≡ true) × (ltb_ℤ (sub_ℕ a b) (pos 0) ≡ false)
not_negative a b h = ground arith

pub negative :
    (a b : ℕ) → a < b → (leb_ℤ (pos 0) (sub_ℕ a b) ≡ false) × (ltb_ℤ (sub_ℕ a b) (pos 0) ≡ true)
negative a b h = ground arith

pub not_positive : (a b : ℕ) → a ≤ b → leb_ℤ (sub_ℕ a b) (pos 0) ≡ true
not_positive a b h = ground arith

pub positive :
    (a b : ℕ) → b < a → (leb_ℤ (sub_ℕ a b) (pos 0) ≡ false) × (ltb_ℤ (pos 0) (sub_ℕ a b) ≡ true)
positive a b h = ground arith

pub max_int-cases : (a b : ℕ) → ((max_int a b ≡ a) × (b ≤ a)) ⊎ ((max_int a b ≡ b) × (a ≤ b))
unfolding max_int
max_int-cases a b = ground arith

module _ {A : Type 0} where
  abbrev pub IsBalanced : Tree A → Type 0
  IsBalanced leaf = Unit {0}
  IsBalanced (node l v h r) =
      IsBalanced l
      × IsBalanced r
      × (h ≡ max_int (height l) (height r) + 1)
      × (height l ≤ height r + 1)
      × (height r ≤ height l + 1)

  -- Sides that differ by at most two are brought together, and the height is off by at most one.
  abbrev pub Fixed : ℕ → ℕ → Tree A → Type 0
  Fixed a b t = IsBalanced t × (max_int a b ≤ height t) × (height t ≤ max_int a b + 1)

  -- The four outcomes of the repair, as trees.
  pub single_right :
      (a : Tree A) (x : A) (b : Tree A) (y : A) (c : Tree A) (n : ℕ)
      → IsBalanced a
      → IsBalanced b
      → IsBalanced c
      → n ≡ max_int (height a) (height b) + 1
      → n ≡ height c + 2
      → height b ≤ height a
      → height a ≤ height b + 1
      → Fixed n (height c) (with_height a x (with_height b y c))
  single_right a x b y c n ba bb bc e d p q =
      let m = max_int-cases (height a) (height b) in
      let m' = max_int-cases (height b) (height c) in
      let m'' = max_int-cases (height a) (max_int (height b) (height c) + 1) in
      let m3 = max_int-cases n (height c) in
      (
        (ba, (bb, bc, refl, omega arith, omega arith), refl, omega arith, omega arith),
        omega arith,
        omega arith,
      )

  pub single_left :
      (a : Tree A) (x : A) (b : Tree A) (y : A) (c : Tree A) (n : ℕ)
      → IsBalanced a
      → IsBalanced b
      → IsBalanced c
      → n ≡ max_int (height b) (height c) + 1
      → n ≡ height a + 2
      → height b ≤ height c
      → height c ≤ height b + 1
      → Fixed (height a) n (with_height (with_height a x b) y c)
  single_left a x b y c n ba bb bc e d p q =
      let m = max_int-cases (height b) (height c) in
      let m' = max_int-cases (height a) (height b) in
      let m'' = max_int-cases (max_int (height a) (height b) + 1) (height c) in
      let m3 = max_int-cases (height a) n in
      (
        ((ba, bb, refl, omega arith, omega arith), bc, refl, omega arith, omega arith),
        omega arith,
        omega arith,
      )

  pub double :
      (a : Tree A) (x : A) (b : Tree A) (y : A) (c : Tree A) (z : A) (d : Tree A) (n j k : ℕ)
      → IsBalanced a
      → IsBalanced b
      → IsBalanced c
      → IsBalanced d
      → height a ≡ k
      → height d ≡ k
      → j ≡ max_int (height b) (height c) + 1
      → j ≡ k + 1
      → n ≡ k + 2
      → height b ≤ height c + 1
      → height c ≤ height b + 1
      → IsBalanced (with_height (with_height a x b) y (with_height c z d))
        × (height (with_height (with_height a x b) y (with_height c z d)) ≡ n)
  double a x b y c z d n j k ba bb bc bd ea ed ej ek en p q =
      let m = max_int-cases (height b) (height c) in
      let m' = max_int-cases (height a) (height b) in
      let m'' = max_int-cases (height c) (height d) in
      let m3 =
        max_int-cases (max_int (height a) (height b) + 1) (max_int (height c) (height d) + 1) in
      (
        (
          (ba, bb, refl, omega arith, omega arith),
          (bc, bd, refl, omega arith, omega arith),
          refl,
          omega arith,
          omega arith,
        ),
        omega arith,
      )

  pub fix-even :
      (l : Tree A) (v : A) (r : Tree A)
      → IsBalanced l
      → IsBalanced r
      → height l ≤ height r + 1
      → height r ≤ height l + 1
      → Fixed (height l) (height r) (remove_fix (with_height l v r))
  unfolding remove_fix
  fix-even l v r bl br p q =
      rw (not_left_heavy (height l) (height r) p, not_right_heavy (height l) (height r) q)
        ((bl, br, refl, p, q), omega arith, omega arith)
