-- ===== src/Filesystem/Path/Resolve.antt =====
-- A normalised path leads where the path leads, and is normalised.
use just_library.Base.{
  ℕ, ◌≤◌, ◌≡◌, sym, ap, ◌∙◌, Bool, true, false, inl, inr, List, [], length, arith, if◌then◌else◌,
  leb, some,
}
use just_library.Base.Text.{Name, same_name}
use just_library.Filesystem.Path.{starts_with_slash, path_normalize, take_segment, print_all}
use just_library.Filesystem.Path.Split.{take_all, split}
use just_library.Filesystem.Path.Walk.{walk_one, walk_all, IsNormal}
use just_library.Filesystem.Path.Replay.{take_all-again, walk_all-take_all}
use just_library.Filesystem.Path.Normal.{
  Printed, segments_of, segments_of-IsNormal, path_normalize-eq, path_normalize-Printed,
  split-AllNames,
}
use mathlib.Core.List.{reverse}

-- Where a path leads from the place `cwd`.
unfoldable pub resolve : List Name → Name → List Name
resolve cwd path = walk_all (if starts_with_slash path then [] else cwd) (split path)

walk_all-Printed :
    (a : Bool) (segments base : List Name) (size : ℕ) (out : Name)
    → Printed a segments size out
    → walk_all base (split out) ≡ walk_all base (reverse segments)
unfolding walk_all walk_one same_name
walk_all-Printed a segments base size out p = elim p.names [
  | inl e ↦ ap (walk_all base) e
  | inr (e, f) ↦ ap (walk_all base) e ∙ sym (ap (λ s. walk_all base (reverse s)) f)
]

-- `justPathNormalize` of a path of at most 64 names: in a tree without symbolic links the result
-- leads, from every directory, where the path leads.
pub resolve-path_normalize :
    (path : Name) (size : ℕ) (out : Name) (cwd : List Name)
    → length (split path) ≤ 64
    → path_normalize path size ≡ some out
    → resolve cwd out ≡ resolve cwd path
unfolding resolve segments_of IsNormal walk_all
resolve-path_normalize path size out cwd l e =
    let p = (path_normalize-Printed path size out e).0 in
    let a = starts_with_slash path in
    let base = if a then [] else cwd in
    let root : a ≡ true → base ≡ [] = (λ (t : a ≡ true). ap (λ b. if b then [] else cwd) t) in
    ap (λ b. walk_all (if b then [] else cwd) (split out)) p.root
    ∙ walk_all-Printed a (segments_of path) base size out p
    ∙ walk_all-take_all a base (split path) [] root (split-AllNames path) tt (omega arith)

segments_of-Printed :
    (path out : Name) (size : ℕ)
    → Printed (starts_with_slash path) (segments_of path) size out
    → segments_of out ≡ segments_of path
unfolding segments_of take_all take_segment same_name
segments_of-Printed path out size p =
    let a = starts_with_slash path in
    let (n, l) = segments_of-IsNormal path in
    ap (λ b. take_all b (split out) []) p.root ∙ elim p.names [
      | inl e ↦ ap (λ s. take_all a s []) e ∙ take_all-again a (segments_of path) n l
      | inr (e, f) ↦ ap (λ s. take_all a s []) e ∙ sym f
    ]

-- What `justPathNormalize` returns in a buffer of at most 1,024 bytes it returns again when it is
-- given that.
pub path_normalize_idem :
    (path : Name) (size : ℕ) (out : Name)
    → size ≤ 1024
    → path_normalize path size ≡ some out
    → path_normalize out size ≡ some out
path_normalize_idem path size out l e =
    let (p, z, f) = path_normalize-Printed path size out e in
    let short : leb 1024 (length out) ≡ false = let k = p.fits in ground arith in
    path_normalize-eq out size z short
    ∙ ap (λ b. print_all b (segments_of out) size) p.root
    ∙ ap (λ s. print_all (starts_with_slash path) s size) (segments_of-Printed path out size p)
    ∙ f
