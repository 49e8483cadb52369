-- ===== src/Filesystem/Path/Normal.antt =====
-- What `justPathNormalize` leaves in the buffer.
use just_library.Base.{
  ℕ, ◌≤◌, ◌<◌, ◌≡◌, refl, sym, ap, subst, ◌∙◌, Bool, true, false, inl, inr, ◌⊎◌, List, [], ◌∷◌,
  ◌++◌, length, arith, ltb, leb, ◌==◌, Bool-cases, none, some, Option-cases,
}
use just_library.Base.Text.{Name}
use just_library.Filesystem.Path.{
  here, slash, starts_with_slash, print, or_here, print_root, print_all, path_normalize,
}
use just_library.Filesystem.Path.Split.{IsPlain, take_all, split, split_from, scan-split, name_list}
use just_library.Filesystem.Path.Print.{
  AllNames, split-print, starts_with_slash-print, starts_with_slash-print_relative, length-print,
}
use just_library.Filesystem.Path.Walk.{IsNormal}
use just_library.Filesystem.Path.Replay.{take_all-IsNormal}
use mathlib.Core.List.{reverse, reverse-cons, reverse-reverse}

AllNames-append : (xs ys : List Name) → AllNames xs → AllNames ys → AllNames (xs ++ ys)
unfolding AllNames
AllNames-append [] ys h k = k
AllNames-append (x ∷ xs) ys (is, h) k = (is, AllNames-append xs ys h k)

name_list-AllNames : (cur : Name) → IsPlain cur → AllNames (name_list cur)
unfolding AllNames
name_list-AllNames [] h = tt
name_list-AllNames (c ∷ cs) h = (record { nonempty = refl; plain = h }, tt)

IsPlain-snoc : (cur : Name) (c : ℕ) → IsPlain cur → (c == slash) ≡ false → IsPlain (cur ++ c ∷ [])
IsPlain-snoc [] c h e = (e, tt)
IsPlain-snoc (x ∷ cur) c (f, h) e = (f, IsPlain-snoc cur c h e)

split_from-AllNames : (cur p : Name) → IsPlain cur → AllNames (split_from cur p)
unfolding split_from
split_from-AllNames cur [] h = name_list-AllNames cur h
split_from-AllNames cur (c ∷ cs) h = elim (Bool-cases (c == slash)) [
  | inl e ↦ rw e (
      AllNames-append (name_list cur) (split_from [] cs) (name_list-AllNames cur h)
        (split_from-AllNames [] cs tt))
  | inr e ↦ rw e (split_from-AllNames (cur ++ c ∷ []) cs (IsPlain-snoc cur c h e))
]

pub split-AllNames : (p : Name) → AllNames (split p)
unfolding split
split-AllNames p = split_from-AllNames [] p tt

reverse-AllNames :
    (a : Bool) (segments : List Name) → IsNormal a segments → AllNames (reverse segments)
unfolding AllNames IsNormal
reverse-AllNames a [] n = tt
reverse-AllNames a (name ∷ below) (s, n) =
    rw (reverse-cons name below)
      (AllNames-append (reverse below) (name ∷ []) (reverse-AllNames a below n) (s.name-IsName, tt))

-- The text that is printed for segments in normal form.
pub record Printed (is_absolute : Bool) (segments : List Name) (size : ℕ) (out : Name)
    : Type 0 where
  pub root : starts_with_slash out ≡ is_absolute
  pub names : (split out ≡ reverse segments) ⊎ ((split out ≡ here ∷ []) × (segments ≡ []))
  pub fits : length out < size

print_all-parts :
    (a : Bool) (segments : List Name) (size : ℕ) (out : Name)
    → print_all a segments size ≡ some out
    → (root text : Name) × (print_root a size ≡ some root)
      × (print size (reverse segments) root ≡ some text)
      × (or_here size text ≡ some out)
unfolding print_all
print_all-parts a segments size out e = elim (Option-cases (print_root a size)) [
  | inl f ↦ let g : none ≡ some out = rw (print_all, f) at e in absurd (cc g)
  | inr (root, f) ↦ elim (Option-cases (print size (reverse segments) root)) [
    | inl p ↦ let g : none ≡ some out = rw (print_all, f, p) at e in absurd (cc g)
    | inr (text, p) ↦ (root, text, f, p, rw (print_all, f, p) at e)
  ]
]

pub reverse-nil : (segments : List Name) → reverse segments ≡ [] → segments ≡ []
reverse-nil segments e = sym (reverse-reverse segments) ∙ ap reverse e

or_here-Printed :
    (a : Bool) (segments : List Name) (size : ℕ) (text out : Name)
    → starts_with_slash text ≡ a
    → split text ≡ reverse segments
    → length text < size
    → or_here size text ≡ some out
    → Printed a segments size out
unfolding or_here split split_from
or_here-Printed a segments size [] out r s l e = elim (Bool-cases (ltb size 2)) [
  | inl f ↦ let g : none ≡ some out = rw f at e in absurd (cc g)
  | inr f ↦
      let g : some here ≡ some out = rw f at e in
      let h : here ≡ out = cc g in
      subst (Printed a segments size) h (record {
        root = r;
        names = inr (refl, reverse-nil segments (sym s));
        fits = ground (arith, f);
      })
]
or_here-Printed a segments size (c ∷ cs) out r s l e =
    let h : c ∷ cs ≡ out = cc e in
    subst (Printed a segments size) h (record { root = r; names = inl s; fits = l })

print_all-Printed :
    (a : Bool) (segments : List Name) (size : ℕ) (out : Name)
    → (size == 0) ≡ false
    → IsNormal a segments
    → print_all a segments size ≡ some out
    → Printed a segments size out
unfolding print_root split split_from
print_all-Printed true segments size out z n e =
    let (root, text, f, p, h) = print_all-parts true segments size out e in
    elim (Bool-cases (leb size 1)) [
      | inl l ↦ let g : none ≡ some root = rw l at f in absurd (cc g)
      | inr l ↦
          let g : some (slash ∷ []) ≡ some root = rw l at f in
          let r : slash ∷ [] ≡ root = cc g in
          let q = ap (print size (reverse segments)) r ∙ p in
          or_here-Printed true segments size text out
            (starts_with_slash-print size (reverse segments) slash [] text q)
            (split-print size (reverse segments) (slash ∷ []) text
              (reverse-AllNames true segments n) q)
            (length-print size (reverse segments) (slash ∷ []) text (ground (arith, l)) q) h
    ]
print_all-Printed false segments size out z n e =
    let (root, text, f, p, h) = print_all-parts false segments size out e in
    let r : [] ≡ root = cc f in
    let q = ap (print size (reverse segments)) r ∙ p in
    let all = reverse-AllNames false segments n in
    or_here-Printed false segments size text out
      (starts_with_slash-print_relative size (reverse segments) text all q)
      (split-print size (reverse segments) [] text all q)
      (length-print size (reverse segments) [] text (ground (arith, z)) q) h

-- The segments of a path.
unfoldable pub segments_of : Name → List Name
segments_of path = take_all (starts_with_slash path) (split path) []

pub segments_of-IsNormal :
    (path : Name)
    → IsNormal (starts_with_slash path) (segments_of path) × (length (segments_of path) ≤ 64)
unfolding segments_of IsNormal
segments_of-IsNormal path =
    take_all-IsNormal (starts_with_slash path) (split path) [] (split-AllNames path) tt
      (omega arith)

pub path_normalize-eq :
    (path : Name) (size : ℕ)
    → (size == 0) ≡ false
    → leb 1024 (length path) ≡ false
    → path_normalize path size ≡ print_all (starts_with_slash path) (segments_of path) size
unfolding path_normalize segments_of
path_normalize-eq path size z l =
    simp (z, l)
      (ap (λ s. print_all (starts_with_slash path) s size)
        (scan-split (length path) (starts_with_slash path) path [] (omega arith)))

pub path_normalize-Printed :
    (path : Name) (size : ℕ) (out : Name)
    → path_normalize path size ≡ some out
    → Printed (starts_with_slash path) (segments_of path) size out
      × ((size == 0) ≡ false)
      × (print_all (starts_with_slash path) (segments_of path) size ≡ some out)
unfolding path_normalize
path_normalize-Printed path size out e = elim (Bool-cases (size == 0)) [
  | inl z ↦ let g : none ≡ some out = rw (path_normalize, z) at e in absurd (cc g)
  | inr z ↦ elim (Bool-cases (leb 1024 (length path))) [
    | inl l ↦ let g : none ≡ some out = rw (path_normalize, z, l) at e in absurd (cc g)
    | inr l ↦
        let f = sym (path_normalize-eq path size z l) ∙ e in
        (
          print_all-Printed (starts_with_slash path) (segments_of path) size out z
              (segments_of-IsNormal path).0 f,
          z,
          f,
        )
  ]
]
