-- ===== src/Base/Sum.antt =====
-- The sum of a weight over a list.
use native.Mathlib.Decide.{dec_lt}
use Prim.Native.Nat.{ℕ, zero, suc, ◌+◌, ◌<◌}
use mathlib.Core.Path.{◌≡◌, refl, ap}
use mathlib.Core.Option.{some}
use mathlib.Core.List.{List, [], ◌∷◌, ◌++◌}
use native.Mathlib.Omega.{arith}
use just_library.Base.Lists.{get_elem?, set}

module _ {A : Type 0} where
  unfoldable pub total : (A → ℕ) → List A → ℕ
  total f [] = 0
  total f (s ∷ ss) = f s + total f ss

  -- Writing one element changes the sum by its weight.
  pub total-set :
      (f : A → ℕ) (ss : List A) (i : ℕ) (s s' : A)
      → get_elem? ss i ≡ some s
      → total f (set ss i s') + f s ≡ total f ss + f s'
  unfolding total
  total-set f [] i s s' e = absurd (cc e)
  total-set f (x ∷ ss) zero s s' e = let same : x ≡ s = cc e in omega (arith, ap f same)
  total-set f (x ∷ ss) (suc i) s s' e = omega (arith, total-set f ss i s s' e)

  pub total-append : (f : A → ℕ) (ss ts : List A) → total f (ss ++ ts) ≡ total f ss + total f ts
  unfolding total
  total-append f [] ts = omega arith
  total-append f (s ∷ ss) ts = omega (arith, total-append f ss ts)

  pub total-zero :
      (f : A → ℕ) (ss : List A)
      → ((i : ℕ) (s : A) → get_elem? ss i ≡ some s → f s ≡ 0)
      → total f ss ≡ 0
  unfolding total
  total-zero f [] h = refl
  total-zero f (s ∷ ss) h = omega (arith, h zero s refl, total-zero f ss (λ i. h (suc i)))

  -- A sum above 0 has an element of weight above 0.
  pub total-some :
      (f : A → ℕ) (ss : List A)
      → 0 < total f ss
      → (i : ℕ) × (s : A) × (get_elem? ss i ≡ some s) × (0 < f s)
  unfolding total
  total-some f [] l = absurd (omega arith)
  total-some f (s ∷ ss) l = elim (dec_lt 0 (f s)) [
    | yes h ↦ (zero, s, refl, h)
    | no h ↦ let (i, s', at, k) = total-some f ss (omega arith) in (suc i, s', at, k)
  ]
