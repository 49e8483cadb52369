-- ===== src/Filesystem/Path/Split.antt =====
-- The names of a path, as a description that is independent of the cursor of the code.
use just_library.Base.{
  ℕ, zero, suc, ◌≤◌, ◌≡◌, refl, sym, ap, subst, ◌∙◌, Bool, false, inl, inr, List, [], ◌∷◌, ◌++◌,
  length, List-cases, arith, if◌then◌else◌, ◌==◌, Bool-cases, append_assoc, append-nil,
}
use just_library.Base.Text.{Name}
use just_library.Filesystem.Path.{
  slash, skip_slashes, first_segment, after_segment, take_segment, scan, is_empty,
}

abbrev pub name_list : Name → List Name
name_list [] = []
name_list (c ∷ cs) = (c ∷ cs) ∷ []

-- The names of a text that goes on after the characters `cur`.
unfoldable pub split_from : Name → Name → List Name
split_from cur [] = name_list cur
split_from cur (c ∷ cs) =
    let rest = split_from [] cs in
    let on = split_from (cur ++ c ∷ []) cs in if c == slash then name_list cur ++ rest else on

-- The names between the slashes of a path.
unfoldable pub split : Name → List Name
split path = split_from [] path

-- The character does not occur.
abbrev pub Lacks : ℕ → Name → Type 0
Lacks c [] = Unit {0}
Lacks c (x ∷ xs) = ((x == c) ≡ false) × Lacks c xs

abbrev pub IsPlain : Name → Type 0
IsPlain name = Lacks slash name

-- A name that can stand in a path.
pub record IsName (name : Name) : Type 0 where
  pub nonempty : is_empty name ≡ false
  pub plain : IsPlain name

pub split_from-skip : (p : Name) → split_from [] (skip_slashes p) ≡ split_from [] p
unfolding split_from skip_slashes
split_from-skip [] = refl
split_from-skip (c ∷ cs) = elim (Bool-cases (c == slash)) [
  | inl e ↦ rw e (split_from-skip cs)
  | inr e ↦ ap (λ t. split_from [] (if t then skip_slashes cs else c ∷ cs)) e
]

pub split_from-segment :
    (cur p : Name)
    → split_from cur p ≡ name_list (cur ++ first_segment p) ++ split_from [] (after_segment p)
unfolding split_from first_segment after_segment
split_from-segment cur [] = rw (append-nil cur, append-nil (name_list cur)) refl
split_from-segment cur (c ∷ cs) = elim (Bool-cases (c == slash)) [
  | inl e ↦ rw (e, append-nil cur) refl
  | inr e ↦ rw e (
      split_from-segment (cur ++ c ∷ []) cs
      ∙ ap (λ t. name_list t ++ split_from [] (after_segment cs))
          (append_assoc cur (c ∷ []) (first_segment cs)))
]

pub length-skip : (p : Name) → length (skip_slashes p) ≤ length p
unfolding skip_slashes
length-skip [] = omega arith
length-skip (c ∷ cs) = elim (Bool-cases (c == slash)) [
  | inl e ↦ rw e (omega (arith, length-skip cs))
  | inr e ↦ rw e (omega arith)
]

pub length-after : (c : ℕ) (p : Name) → length (after_segment (c ∷ p)) ≤ length p
unfolding after_segment
length-after c [] = elim (Bool-cases (c == slash)) [
  | inl e ↦ rw e (omega arith)
  | inr e ↦ rw e (omega arith)
]
length-after c (d ∷ cs) = elim (Bool-cases (c == slash)) [
  | inl e ↦ rw e (omega arith)
  | inr e ↦ rw e (omega (arith, length-after d cs))
]

-- What `skip_slashes` stops at is no slash.
pub skip_slashes-stop :
    (p : Name) (c : ℕ) (cs : Name) → skip_slashes p ≡ c ∷ cs → (c == slash) ≡ false
unfolding skip_slashes
skip_slashes-stop [] c cs h = absurd (cc h)
skip_slashes-stop (d ∷ ds) c cs h = elim (Bool-cases (d == slash)) [
  | inl e ↦ skip_slashes-stop ds c cs (sym (ap (λ t. if t then skip_slashes ds else d ∷ ds) e) ∙ h)
  | inr e ↦
      let f : d ∷ ds ≡ c ∷ cs = sym (ap (λ t. if t then skip_slashes ds else d ∷ ds) e) ∙ h in
      let g : d ≡ c = cc f in ap (λ x. x == slash) (sym g) ∙ e
]

pub first_segment-IsPlain : (p : Name) → IsPlain (first_segment p)
unfolding first_segment
first_segment-IsPlain [] = tt
first_segment-IsPlain (c ∷ cs) = elim (Bool-cases (c == slash)) [
  | inl e ↦ rw e tt
  | inr e ↦
      let both : ((c == slash) ≡ false) × IsPlain (first_segment cs) =
        (e, first_segment-IsPlain cs) in
      subst (λ t. IsPlain (if t then [] else c ∷ first_segment cs)) (sym e) both
]

-- What the scan takes is a name.
pub first_segment-IsName :
    (p : Name) (c : ℕ) (cs : Name) → skip_slashes p ≡ c ∷ cs → IsName (first_segment (c ∷ cs))
unfolding first_segment
first_segment-IsName p c cs h = record {
  nonempty = let e = skip_slashes-stop p c cs h in rw e refl;
  plain = first_segment-IsPlain (c ∷ cs);
}

pub name_list-name : (name : Name) → IsName name → name_list name ≡ name ∷ []
name_list-name [] h = absurd (cc (h.nonempty))
name_list-name (c ∷ cs) h = refl

-- The loop takes the names of the path one after the other; the length of the path is enough fuel.
unfoldable pub take_all : Bool → List Name → List Name → List Name
take_all is_absolute [] segments = segments
take_all is_absolute (name ∷ names) segments =
    take_all is_absolute names (take_segment is_absolute segments name)

pub scan-split :
    (n : ℕ) (a : Bool) (p : Name) (segments : List Name)
    → length p ≤ n
    → scan n a p segments ≡ take_all a (split p) segments
unfolding scan split take_all split_from
scan-split zero a [] segments h = refl
scan-split zero a (c ∷ cs) segments h = absurd (omega arith)
scan-split (suc n) a p segments h = elim (List-cases (skip_slashes p)) [
  | inl e ↦
      let none_left = sym (split_from-skip p) ∙ ap (split_from []) e in rw (scan, e, none_left) refl
  | inr (c, cs, e) ↦
      let name = first_segment-IsName p c cs e in
      let less = length-skip p in
      let size = ap length e in
      let parts = sym (split_from-skip p) ∙ ap (split_from []) e ∙ split_from-segment [] (c ∷ cs) in
      let on =
        scan-split n a (after_segment (c ∷ cs)) (take_segment a segments (first_segment (c ∷ cs)))
          (omega (arith, length-after c cs)) in
      rw (scan, e, parts, name_list-name (first_segment (c ∷ cs)) name) on
]
