-- ===== src/Filesystem/Path/Print.antt =====
-- The names of the text that `justPathNormalize` writes.
use just_library.Base.{
  ℕ, ◌+◌, ◌<◌, ◌≡◌, refl, sym, ap, ◌∙◌, true, false, not, ◌&&◌, inl, inr, List, [], ◌∷◌, ◌++◌,
  length, length-append, arith, if◌then◌else◌, ◌==◌, leb, Bool-cases, append_assoc, append-nil,
  some, none,
}
use just_library.Base.Text.{Name}
use just_library.Filesystem.Path.{slash, ends_with_slash, is_empty, print, starts_with_slash}
use just_library.Filesystem.Path.Split.{
  name_list, name_list-name, split_from, split, IsPlain, IsName,
}

unfoldable pub AllNames : List Name → Type 0
AllNames [] = Unit {0}
AllNames (name ∷ names) = IsName name × AllNames names

split_from-append_slash :
    (cur xs ys : Name) → split_from cur (xs ++ slash ∷ ys) ≡ split_from cur xs ++ split ys
unfolding split_from split
split_from-append_slash cur [] ys = refl
split_from-append_slash cur (x ∷ xs) ys = elim (Bool-cases (x == slash)) [
  | inl e ↦ rw e (
      ap (λ t. name_list cur ++ t) (split_from-append_slash [] xs ys)
      ∙ sym (append_assoc (name_list cur) (split_from [] xs) (split_from [] ys)))
  | inr e ↦ rw e (split_from-append_slash (cur ++ x ∷ []) xs ys)
]

split_from-append_end :
    (cur xs ys : Name)
    → ends_with_slash xs ≡ true
    → split_from cur (xs ++ ys) ≡ split_from cur xs ++ split ys
unfolding split_from split ends_with_slash
split_from-append_end cur [] ys h = absurd (cc h)
split_from-append_end cur (x ∷ []) ys h =
    rw h (ap (λ t. t ++ split_from [] ys) (sym (append-nil (name_list cur))))
split_from-append_end cur (x ∷ y ∷ xs) ys h = elim (Bool-cases (x == slash)) [
  | inl e ↦ simp e (
      ap (λ t. name_list cur ++ t) (split_from-append_end [] (y ∷ xs) ys h)
      ∙ sym (append_assoc (name_list cur) (split_from [] (y ∷ xs)) (split_from [] ys)))
  | inr e ↦ simp e (split_from-append_end (cur ++ x ∷ []) (y ∷ xs) ys h)
]

split_from-plain : (cur n : Name) → IsPlain n → split_from cur n ≡ name_list (cur ++ n)
unfolding split_from
split_from-plain cur [] h = ap name_list (sym (append-nil cur))
split_from-plain cur (c ∷ cs) h =
    rw h.0 (split_from-plain (cur ++ c ∷ []) cs h.1 ∙ ap name_list (append_assoc cur (c ∷ []) cs))

pub split-name : (n : Name) → IsName n → split n ≡ n ∷ []
unfolding split
split-name n h = split_from-plain [] n h.plain ∙ name_list-name n h

-- What one step of the printing loop has written.
unfoldable pub wrote : Name → Name → Name
wrote out name =
    if not (is_empty out) && not (ends_with_slash out) then out ++ slash ∷ name else out ++ name

pub split-wrote : (out name : Name) → IsName name → split (wrote out name) ≡ split out ++ name ∷ []
unfolding wrote split split_from
split-wrote [] name h = split-name name h
split-wrote (c ∷ cs) name h = elim (Bool-cases (ends_with_slash (c ∷ cs))) [
  | inl e ↦ rw e (
      split_from-append_end [] (c ∷ cs) name e
      ∙ ap (λ t. split_from [] (c ∷ cs) ++ t) (split-name name h))
  | inr e ↦ rw e (
      split_from-append_slash [] (c ∷ cs) name
      ∙ ap (λ t. split_from [] (c ∷ cs) ++ t) (split-name name h))
]

pub print-cons :
    (size : ℕ) (name : Name) (names : List Name) (out text : Name)
    → print size (name ∷ names) out ≡ some text
    → print size names (wrote out name) ≡ some text
unfolding print wrote
print-cons size name names out text h =
    elim (Bool-cases (
      leb size (
        length out
        + (if not (is_empty out) && not (ends_with_slash out) then 1 else 0)
        + length name))) [
          | inl e ↦ let f : none ≡ some text = rw e at h in absurd (cc f)
          | inr e ↦ rw e at h
        ]

-- The text has the names that are printed, behind those of what stood there.
pub split-print :
    (size : ℕ) (names : List Name) (out text : Name)
    → AllNames names
    → print size names out ≡ some text
    → split text ≡ split out ++ names
unfolding AllNames print
split-print size [] out text h e =
    let f : out ≡ text = cc e in ap split (sym f) ∙ sym (append-nil (split out))
split-print size (name ∷ names) out text h e =
    split-print size names (wrote out name) text h.1 (print-cons size name names out text e)
    ∙ ap (λ t. t ++ names) (split-wrote out name h.0)
    ∙ append_assoc (split out) (name ∷ []) names

wrote-cons : (c : ℕ) (out name : Name) → (more : Name) × (wrote (c ∷ out) name ≡ c ∷ more)
unfolding wrote
wrote-cons c out name = elim (Bool-cases (ends_with_slash (c ∷ out))) [
  | inl e ↦ (out ++ name, rw e refl)
  | inr e ↦ (out ++ slash ∷ name, rw e refl)
]

-- What the text starts with stays.
pub starts_with_slash-print :
    (size : ℕ) (names : List Name) (c : ℕ) (out text : Name)
    → print size names (c ∷ out) ≡ some text
    → starts_with_slash text ≡ (c == slash)
unfolding print
starts_with_slash-print size [] c out text e =
    let f : c ∷ out ≡ text = cc e in ap starts_with_slash (sym f)
starts_with_slash-print size (name ∷ names) c out text e =
    let (more, f) = wrote-cons c out name in
    starts_with_slash-print size names c more text
      (ap (print size names) (sym f) ∙ print-cons size name names (c ∷ out) text e)

-- A relative text stays relative.
pub starts_with_slash-print_relative :
    (size : ℕ) (names : List Name) (text : Name)
    → AllNames names
    → print size names [] ≡ some text
    → starts_with_slash text ≡ false
unfolding AllNames print wrote
starts_with_slash-print_relative size [] text h e =
    let f : [] ≡ text = cc e in ap starts_with_slash (sym f)
starts_with_slash-print_relative size ([] ∷ names) text h e = absurd (cc (h.0.nonempty))
starts_with_slash-print_relative size ((c ∷ cs) ∷ names) text h e =
    starts_with_slash-print size names c cs text (print-cons size (c ∷ cs) names [] text e)
    ∙ h.0.plain.0

length-wrote :
    (size : ℕ) (name : Name) (names : List Name) (out text : Name)
    → print size (name ∷ names) out ≡ some text
    → length (wrote out name) < size
unfolding print wrote
length-wrote size name names out text h =
    elim (Bool-cases (not (is_empty out) && not (ends_with_slash out))) [
      | inl e ↦
          let f = rw e at h in
          elim (Bool-cases (leb size (length out + 1 + length name))) [
            | inl l ↦ let g : none ≡ some text = rw l at f in absurd (cc g)
            | inr l ↦ rw e (let k = length-append out (slash ∷ name) in ground (arith, k, l))
          ]
      | inr e ↦
          let f = rw e at h in
          elim (Bool-cases (leb size (length out + 0 + length name))) [
            | inl l ↦ let g : none ≡ some text = rw l at f in absurd (cc g)
            | inr l ↦ rw e (let k = length-append out name in ground (arith, k, l))
          ]
    ]

-- What is printed fits the buffer with its terminator.
pub length-print :
    (size : ℕ) (names : List Name) (out text : Name)
    → length out < size
    → print size names out ≡ some text
    → length text < size
unfolding print
length-print size [] out text l e = let f : out ≡ text = cc e in rw f at l
length-print size (name ∷ names) out text l e =
    length-print size names (wrote out name) text (length-wrote size name names out text e)
      (print-cons size name names out text e)
