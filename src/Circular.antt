-- ===== src/Circular.antt =====
-- Reading a circular buffer as a list: what the ring buffer and the queue share.
use native.Mathlib.Nat.{mod-lt}
use native.Mathlib.Decide.{dec_lt}
use just_library.Base.{
  ℕ, suc, ◌+◌, ◌-◌, ◌%◌, ◌≤◌, ◌<◌, ◌≡◌, ◌≢◌, sym, ap, ◌∙◌, List, [], ◌∷◌, ◌++◌, length, get_elem?,
  set, length-append, get_elem?-set_self, get_elem?-set_ne, get_elem?-append_left,
  get_elem?-append_right, mod-add-mod, mod-eq_of_lt, mod-eq-sub-mod, arith,
}

module _ {A : Type 0} where
  -- From index `start` on, going round at `cap`, the block holds the elements of `xs`.
  abbrev pub Holds : List A → ℕ → ℕ → List A → Type 0
  Holds block cap start xs =
      (i : ℕ) → i < length xs → get_elem? block ((start + i) % cap) ≡ get_elem? xs i

-- Fewer than `cap` steps round the buffer do not come back to the same index.
pub index-ne :
    (cap start i n : ℕ) → start < cap → i < n → n < cap → (start + n) % cap ≢ (start + i) % cap
index-ne cap start i n hs hi hn = elim (dec_lt (start + n) cap) [
  | yes p ↦ omega (
    arith,
    mod-eq_of_lt {n = start + n} {m = cap} p,
    mod-eq_of_lt {n = start + i} {m = cap} (omega arith),
  )
  | no p ↦ wrapped (omega arith)
]
  where
    wrapped : cap ≤ start + n → (start + n) % cap ≢ (start + i) % cap
    wrapped p =
        let over = mod-eq-sub-mod {n = start + n} {m = cap} p in
        let low = mod-eq_of_lt {n = start + n - cap} {m = cap} (omega arith) in
        elim (dec_lt (start + i) cap) [
          | yes q ↦ omega (arith, over, low, mod-eq_of_lt {n = start + i} {m = cap} q)
          | no q ↦ omega (
            arith,
            over,
            low,
            mod-eq-sub-mod {n = start + i} {m = cap} (omega arith),
            mod-eq_of_lt {n = start + i - cap} {m = cap} (omega arith),
          )
        ]

module _ {A : Type 0} where
  -- Writing just past the elements appends one.
  pub Holds-append :
      (block : List A) (cap start : ℕ) (xs : List A) (x : A)
      → cap ≤ length block
      → start < cap
      → length xs < cap
      → Holds block cap start xs
      → Holds (set block ((start + length xs) % cap) x) cap start (xs ++ x ∷ [])
  Holds-append block cap start xs x room hs hn h i l = elim (dec_lt i (length xs)) [
    | yes p ↦
        get_elem?-set_ne block _ _ x (index-ne cap start i (length xs) hs p hn)
        ∙ h i p
        ∙ sym (get_elem?-append_left xs (x ∷ []) i p)
    | no p ↦
        let at_end : i ≡ length xs + 0 = omega (arith, length-append xs (x ∷ [])) in
        let same : length xs + 0 ≡ length xs = omega arith in
        rw at_end (
          rw same
            (get_elem?-set_self block _ x (omega (arith, mod-lt (start + length xs) {m = cap})))
          ∙ sym (get_elem?-append_right xs (x ∷ []) 0))
  ]

  -- Going one index further drops the first element.
  pub Holds-tail :
      (block : List A) (cap start : ℕ) (x : A) (xs : List A)
      → Holds block cap start (x ∷ xs)
      → Holds block cap ((start + 1) % cap) xs
  Holds-tail block cap start x xs h i l =
      ap (get_elem? block) (mod-add-mod (start + 1) cap i ∙ ap (λ k. k % cap) (omega arith))
      ∙ h (suc i) (omega arith)

  pub Holds-head :
      (block : List A) (cap start : ℕ) (x : A) (xs : List A)
      → start < cap
      → Holds block cap start (x ∷ xs)
      → get_elem? block start ≡ get_elem? (x ∷ xs) 0
  Holds-head block cap start x xs hs h = ap (get_elem? block) at_start ∙ h 0 (omega arith)
    where
      at_start : start ≡ (start + 0) % cap
      at_start = omega (arith, mod-eq_of_lt {n = start + 0} {m = cap} (omega arith))
