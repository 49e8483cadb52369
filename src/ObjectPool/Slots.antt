-- ===== src/ObjectPool/Slots.antt =====
-- Lists of slot offsets: how often an offset occurs, and the free list as it is linked in memory.
use native.Mathlib.Decide.{ℕ_discrete, dec_lt}
use native.Mathlib.Nat.{mul-le-mul_right, add-mul, mul-mod_left}
use just_library.Base.{
  ℕ, zero, suc, ◌+◌, ◌*◌, ◌%◌, ◌≤◌, ◌<◌, ◌≡◌, ◌≢◌, refl, ap, ◌∙◌, false, List, [], ◌∷◌, length,
  arith, if◌then◌else◌, ◌==◌,
}
use just_library.ObjectPool.{Words, store_word, end_of_list}

-- how often `x` occurs
unfoldable pub times : ℕ → List ℕ → ℕ
times x [] = 0
times x (y ∷ ys) = (if x == y then 1 else 0) + times x ys

-- without its first occurrence
unfoldable pub erase : ℕ → List ℕ → List ℕ
erase x [] = []
erase x (y ∷ ys) = let rest = y ∷ erase x ys in if x == y then ys else rest

-- `n` offsets from that of slot `i` on
unfoldable pub offsets : ℕ → ℕ → ℕ → List ℕ
offsets stride zero i = []
offsets stride (suc n) i = i * stride ∷ offsets stride n (i + 1)

-- The list that starts at `head` runs through these offsets.
unfoldable pub Linked : Words → ℕ → List ℕ → Type 0
Linked w head [] = head ≡ end_of_list
Linked w head (x ∷ xs) = (head ≡ x) × Linked w (w x) xs

pub times-erase_self :
    (x : ℕ) (xs : List ℕ) → 0 < times x xs → times x (erase x xs) + 1 ≡ times x xs
unfolding times erase
times-erase_self x [] l = absurd (omega arith)
times-erase_self x (y ∷ ys) l = ground (arith, times-erase_self x ys)

pub times-erase_other : (x y : ℕ) (xs : List ℕ) → y ≢ x → times y (erase x xs) ≡ times y xs
unfolding times erase
times-erase_other x y [] d = refl
times-erase_other x y (z ∷ zs) d = ground (arith, times-erase_other x y zs d)

pub length-erase : (x : ℕ) (xs : List ℕ) → 0 < times x xs → length (erase x xs) + 1 ≡ length xs
unfolding times erase
length-erase x [] l = absurd (omega arith)
length-erase x (y ∷ ys) l = ground (arith, length-erase x ys)

-- A write outside the list leaves it linked.
pub Linked-store :
    (w : Words) (head : ℕ) (xs : List ℕ) (x v : ℕ)
    → times x xs ≡ 0
    → Linked w head xs
    → Linked (store_word w x v) head xs
unfolding times Linked
Linked-store w head [] x v gone linked = linked
Linked-store w head (y ∷ ys) x v gone (at, rest) =
    let apart : (y == x) ≡ false = ground arith in
    (at, rw apart (Linked-store w (w y) ys x v (ground arith) rest))

pub length-offsets : (stride n i : ℕ) → length (offsets stride n i) ≡ n
unfolding offsets
length-offsets stride zero i = refl
length-offsets stride (suc n) i = omega (arith, length-offsets stride n (i + 1))

-- Where an offset occurs, it is that of one of the slots.
pub offsets-slot :
    (stride n i x : ℕ)
    → 0 < times x (offsets stride n i)
    → (j : ℕ) × (i ≤ j) × (j < i + n) × (x ≡ j * stride)
unfolding times offsets
offsets-slot stride zero i x l = absurd (omega arith)
offsets-slot stride (suc n) i x l = elim (ℕ_discrete x (i * stride)) [
  | yes e ↦ (i, omega arith, omega arith, e)
  | no d ↦
      let (j, low, high, at) = offsets-slot stride n (i + 1) x (ground arith) in
      (j, omega arith, omega arith, at)
]

-- The offsets differ.
pub offsets-once : (stride n i x : ℕ) → 0 < stride → times x (offsets stride n i) ≤ 1
unfolding times offsets
offsets-once stride zero i x p = omega arith
offsets-once stride (suc n) i x p = elim (ℕ_discrete x (i * stride)) [
  | no d ↦ ground (arith, offsets-once stride n (i + 1) x p)
  | yes e ↦ elim (dec_lt 0 (times x (offsets stride n (i + 1)))) [
    | no l ↦ ground arith
    | yes l ↦
        let (j, low, high, at) = offsets-slot stride n (i + 1) x l in
        absurd (omega (arith, mul-le-mul_right stride low, add-mul i 1 stride))
  ]
]

-- A slot ends within the memory, so its offset is not the mark of the end.
pub offsets-bounded :
    (stride n x : ℕ)
    → 0 < times x (offsets stride n 0)
    → (x % stride ≡ 0) × (x + stride ≤ n * stride)
offsets-bounded stride n x l =
    let (j, low, high, at) = offsets-slot stride n 0 x l in
    let next : j + 1 ≤ n = omega arith in
    (
      ap (λ t. t % stride) at ∙ mul-mod_left j stride,
      omega (arith, at, mul-le-mul_right stride next, add-mul j 1 stride),
    )
