-- ===== src/Tracker/Names.antt =====
-- Which entry a tag belongs to.
use just_library.Base.{
  ℕ, zero, suc, ◌+◌, ◌<◌, ◌≡◌, refl, sym, ap, ◌∙◌, true, Option, some, List, [], ◌∷◌, ◌++◌, length,
  set, get_elem?, arith, inl, inr, Bool-cases, if◌then◌else◌,
}
use just_library.Base.Text.{Name, same_name, same_name_refl}
use just_library.Tracker.{TagEntry, Tracker, find_tag, is_unknown, get_or_create_tag}

pub find_tag-lt :
    (tag : Name) (es : List TagEntry) (n k : ℕ) → find_tag tag es n ≡ some k → k < n + length es
unfolding find_tag
find_tag-lt tag [] n k e = absurd (cc e)
find_tag-lt tag (x ∷ es) n k e = elim (Bool-cases (same_name x.name tag)) [
  | inl s ↦
      let f : some n ≡ some k =
        sym (ap (λ b. if b then some n else find_tag tag es (n + 1)) s) ∙ e in
      let g : n ≡ k = cc f in omega arith
  | inr s ↦
      let f : find_tag tag es (n + 1) ≡ some k =
        sym (ap (λ b. if b then some n else find_tag tag es (n + 1)) s) ∙ e in
      omega (arith, find_tag-lt tag es (n + 1) k f)
]

-- The name of an entry is found.
pub find_tag-name :
    (es : List TagEntry) (i : ℕ) (e : TagEntry) (n : ℕ)
    → get_elem? es i ≡ some e
    → (k : ℕ) × (find_tag e.name es n ≡ some k)
unfolding find_tag
find_tag-name [] i e n at = absurd (cc at)
find_tag-name (x ∷ es) zero e n at =
    let f : x ≡ e = cc at in
    let s : same_name x.name e.name ≡ true =
      ap (λ y. same_name x.name y.name) (sym f) ∙ same_name_refl x.name in
    (n, ap (λ b. if b then some n else find_tag e.name es (n + 1)) s)
find_tag-name (x ∷ es) (suc i) e n at = elim (Bool-cases (same_name x.name e.name)) [
  | inl s ↦ (n, ap (λ b. if b then some n else find_tag e.name es (n + 1)) s)
  | inr s ↦
      let (k, found) = find_tag-name es i e (n + 1) at in
      (k, ap (λ b. if b then some n else find_tag e.name es (n + 1)) s ∙ found)
]

-- Only the names count.
pub find_tag-set :
    (tag : Name) (es : List TagEntry) (i : ℕ) (e e' : TagEntry) (n : ℕ)
    → get_elem? es i ≡ some e
    → e'.name ≡ e.name
    → find_tag tag (set es i e') n ≡ find_tag tag es n
unfolding find_tag
find_tag-set tag [] i e e' n at s = refl
find_tag-set tag (x ∷ es) zero e e' n at s =
    let f : x ≡ e = cc at in
    ap (λ name. if same_name name tag then some n else find_tag tag es (n + 1))
      (s ∙ ap (λ y. y.name) (sym f))
find_tag-set tag (x ∷ es) (suc i) e e' n at s =
    ap (λ o. if same_name x.name tag then some n else o) (find_tag-set tag es i e e' (n + 1) at s)

-- A new entry hides no old one.
pub find_tag-append :
    (tag : Name) (es : List TagEntry) (e : TagEntry) (n k : ℕ)
    → find_tag tag es n ≡ some k
    → find_tag tag (es ++ e ∷ []) n ≡ some k
unfolding find_tag
find_tag-append tag [] e n k f = absurd (cc f)
find_tag-append tag (x ∷ es) e n k f = elim (Bool-cases (same_name x.name tag)) [
  | inl s ↦
      ap (λ b. if b then some n else find_tag tag (es ++ e ∷ []) (n + 1)) s
      ∙ sym (ap (λ b. if b then some n else find_tag tag es (n + 1)) s)
      ∙ f
  | inr s ↦
      ap (λ b. if b then some n else find_tag tag (es ++ e ∷ []) (n + 1)) s
      ∙ find_tag-append tag es e (n + 1) k
          (sym (ap (λ b. if b then some n else find_tag tag es (n + 1)) s) ∙ f)
]

-- The entry that `getOrCreateTag` gives for a tag, if it need not make one.
unfoldable pub entry_of : List TagEntry → Name → Option ℕ
entry_of es tag = if is_unknown tag then some 0 else find_tag tag es 0

pub entry_of-lt :
    (es : List TagEntry) (tag : Name) (k : ℕ)
    → 0 < length es
    → entry_of es tag ≡ some k
    → k < length es
unfolding entry_of
entry_of-lt es tag k l e = elim (Bool-cases (is_unknown tag)) [
  | inl u ↦
      let f : some 0 ≡ some k = sym (ap (λ b. if b then some 0 else find_tag tag es 0) u) ∙ e in
      let g : 0 ≡ k = cc f in omega arith
  | inr u ↦
      let f = sym (ap (λ b. if b then some 0 else find_tag tag es 0) u) ∙ e in
      omega (arith, find_tag-lt tag es 0 k f)
]

pub entry_of-name :
    (es : List TagEntry) (i : ℕ) (e : TagEntry)
    → get_elem? es i ≡ some e
    → (k : ℕ) × (entry_of es e.name ≡ some k)
unfolding entry_of
entry_of-name es i e at = elim (Bool-cases (is_unknown e.name)) [
  | inl u ↦ (0, ap (λ b. if b then some 0 else find_tag e.name es 0) u)
  | inr u ↦
      let (k, found) = find_tag-name es i e 0 at in
      (k, ap (λ b. if b then some 0 else find_tag e.name es 0) u ∙ found)
]

pub entry_of-set :
    (es : List TagEntry) (tag : Name) (i : ℕ) (e e' : TagEntry)
    → get_elem? es i ≡ some e
    → e'.name ≡ e.name
    → entry_of (set es i e') tag ≡ entry_of es tag
unfolding entry_of
entry_of-set es tag i e e' at s =
    ap (λ o. if is_unknown tag then some 0 else o) (find_tag-set tag es i e e' 0 at s)

pub entry_of-append :
    (es : List TagEntry) (tag : Name) (e : TagEntry) (k : ℕ)
    → entry_of es tag ≡ some k
    → entry_of (es ++ e ∷ []) tag ≡ some k
unfolding entry_of
entry_of-append es tag e k f = elim (Bool-cases (is_unknown tag)) [
  | inl u ↦
      ap (λ b. if b then some 0 else find_tag tag (es ++ e ∷ []) 0) u
      ∙ sym (ap (λ b. if b then some 0 else find_tag tag es 0) u)
      ∙ f
  | inr u ↦
      ap (λ b. if b then some 0 else find_tag tag (es ++ e ∷ []) 0) u
      ∙ find_tag-append tag es e 0 k (sym (ap (λ b. if b then some 0 else find_tag tag es 0) u) ∙ f)
]

-- A tag that has an entry is given it, and the tracker stays as it is.
pub get_or_create_tag-old :
    (t : Tracker) (tag : Name) (k : ℕ)
    → entry_of t.memory_tags tag ≡ some k
    → get_or_create_tag t tag ≡ (k, t)
unfolding entry_of get_or_create_tag
get_or_create_tag-old t tag k e = elim (Bool-cases (is_unknown tag)) [
  | inl u ↦
      let f : some 0 ≡ some k =
        sym (ap (λ b. if b then some 0 else find_tag tag t.memory_tags 0) u) ∙ e in
      let g : 0 ≡ k = cc f in simp u (ap (λ k. (k, t)) g)
  | inr u ↦
      let f : find_tag tag t.memory_tags 0 ≡ some k =
        sym (ap (λ b. if b then some 0 else find_tag tag t.memory_tags 0) u) ∙ e in
      simp (u, f) refl
]
