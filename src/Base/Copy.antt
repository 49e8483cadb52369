-- ===== src/Base/Copy.antt =====
-- `memcpy` of whole elements between two blocks.
use mathlib.Core.Path.{◌≡◌, refl, ◌∙◌}
use Prim.Native.Nat.{ℕ, zero, suc, ◌+◌, ◌≤◌, ◌<◌}
use mathlib.Core.List.{List}
use mathlib.Core.Option.{Option, none, some}
use native.Mathlib.Omega.{arith}
use just_library.Base.Lists.{
  length, get_elem?, set, length-set, get_elem?-set_self, get_elem?-set_ne, get_elem?-some,
}

module _ {ℓ} {A : Type ℓ} where
  -- Writes what was read; a read past the source leaves the slot alone.
  abbrev pub put : List A → ℕ → Option A → List A
  put dst i none = dst
  put dst i (some x) = set dst i x

  -- `memcpy(dst + i, src + j, n)` in elements
  unfoldable pub copy : ℕ → List A → ℕ → List A → ℕ → List A
  copy zero dst i src j = dst
  copy (suc n) dst i src j = copy n (put dst i (get_elem? src j)) (i + 1) src (j + 1)

  length-put : (dst : List A) (i : ℕ) (o : Option A) → length (put dst i o) ≡ length dst
  length-put dst i none = refl
  length-put dst i (some x) = length-set dst i x

  pub length-copy :
      (n : ℕ) (dst : List A) (i : ℕ) (src : List A) (j : ℕ)
      → length (copy n dst i src j) ≡ length dst
  unfolding copy
  length-copy zero dst i src j = refl
  length-copy (suc n) dst i src j =
      length-copy n (put dst i (get_elem? src j)) (i + 1) src (j + 1)
      ∙ length-put dst i (get_elem? src j)

  -- Slots in front of the target are left alone.
  pub get_elem?-copy_before :
      (n : ℕ) (dst : List A) (i : ℕ) (src : List A) (j k : ℕ)
      → k < i
      → get_elem? (copy n dst i src j) k ≡ get_elem? dst k
  unfolding copy
  get_elem?-copy_before zero dst i src j k h = refl
  get_elem?-copy_before (suc n) dst i src j k h =
      get_elem?-copy_before n (put dst i (get_elem? src j)) (i + 1) src (j + 1) k (omega arith)
      ∙ untouched (get_elem? src j)
    where
      untouched : (o : Option A) → get_elem? (put dst i o) k ≡ get_elem? dst k
      untouched none = refl
      untouched (some x) = get_elem?-set_ne dst i k x (omega arith)

  -- Copied slots hold what the source held.
  pub get_elem?-copy :
      (n : ℕ) (dst : List A) (i : ℕ) (src : List A) (j k : ℕ)
      → i + n ≤ length dst
      → j + n ≤ length src
      → k < n
      → get_elem? (copy n dst i src j) (i + k) ≡ get_elem? src (j + k)
  unfolding copy
  get_elem?-copy zero dst i src j k hd hs h = elim h [ ]
  get_elem?-copy (suc n) dst i src j zero hd hs h =
      let (x, found) = get_elem?-some src j (omega arith) in
      let e : i + 0 ≡ i = omega arith in
      let e' : j + 0 ≡ j = omega arith in
      rw (e, e')
        (get_elem?-copy_before n (put dst i (get_elem? src j)) (i + 1) src (j + 1) i (omega arith)
          ∙ rw found (get_elem?-set_self dst i x (omega arith)))
  get_elem?-copy (suc n) dst i src j (suc k) hd hs h =
      let e : i + suc k ≡ i + 1 + k = omega arith in
      let e' : j + suc k ≡ j + 1 + k = omega arith in
      rw (e, e')
        (get_elem?-copy n (put dst i (get_elem? src j)) (i + 1) src (j + 1) k
          (omega (arith, length-put dst i (get_elem? src j))) (omega arith) (omega arith))

  -- The same for a copy to the front of the block.
  pub get_elem?-copy_front :
      (n : ℕ) (dst src : List A) (j k : ℕ)
      → n ≤ length dst
      → j + n ≤ length src
      → k < n
      → get_elem? (copy n dst 0 src j) k ≡ get_elem? src (j + k)
  get_elem?-copy_front n dst src j k hd hs h =
      let e : 0 + k ≡ k = omega arith in rw e at (get_elem?-copy n dst 0 src j k (omega arith) hs h)
