-- ===== src/Base/Text.antt =====
-- C strings without their terminator, as lists of character codes.
use Prim.Native.Nat.{ℕ}
use mathlib.Core.Path.{◌≡◌, refl, sym, ap, ◌∙◌}
use mathlib.Core.Bool.{Bool, true, false}
use mathlib.Core.Logic.{inl, inr}
use mathlib.Core.List.{List, [], ◌∷◌}
use native.Mathlib.Omega.{arith}
use just_library.Base.Tests.{◌==◌, ==_iff, if◌then◌else◌, Bool-cases}

abbrev pub Name : Type 0
Name = List ℕ

-- `strcmp(a, b) == 0`
unfoldable pub same_name : Name → Name → Bool
same_name [] [] = true
same_name [] (b ∷ bs) = false
same_name (a ∷ rest) [] = false
same_name (a ∷ more) (b ∷ bs) = let rest = same_name more bs in if a == b then rest else false

pub same_name_refl : (a : Name) → same_name a a ≡ true
unfolding same_name
same_name_refl [] = refl
same_name_refl (x ∷ a) = let e : (x == x) ≡ true = ground arith in rw (e, same_name_refl a) refl

pub same_name_sound : (a b : Name) → same_name a b ≡ true → a ≡ b
unfolding same_name
same_name_sound [] [] h = refl
same_name_sound [] (b ∷ bs) h = absurd (cc h)
same_name_sound (a ∷ more) [] h = absurd (cc h)
same_name_sound (a ∷ more) (b ∷ bs) h = elim (Bool-cases (a == b)) [
  | inl e ↦
      let f : same_name more bs ≡ true =
        sym (ap (λ t. if t then same_name more bs else false) e) ∙ h in
      let same = (==_iff a b).0 e in cc (same, same_name_sound more bs f)
  | inr e ↦
      let f : false ≡ true = sym (ap (λ t. if t then same_name more bs else false) e) ∙ h in
      absurd (cc f)
]
