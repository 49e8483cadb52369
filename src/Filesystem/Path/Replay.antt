-- ===== src/Filesystem/Path/Replay.antt =====
-- The loop of `justPathNormalize` over all the names of a path.
use just_library.Base.{
  suc, ◌+◌, ◌≤◌, ◌<◌, ◌≡◌, refl, sym, ap, ◌∙◌, Bool, true, false, inl, inr, List, [], ◌∷◌, ◌++◌,
  length, arith, ltb, ltb→lt, lt→ltb, Bool-cases,
}
use just_library.Base.Text.{Name, same_name, same_name_refl, same_name_sound}
use just_library.Filesystem.Path.{above, push_segment, go_up, take_segment}
use just_library.Filesystem.Path.Split.{take_all}
use just_library.Filesystem.Path.Print.{AllNames}
use just_library.Filesystem.Path.Walk.{
  walk_one, walk_all, walk_all-append, TopAbove, Segment, IsNormal, Moves, Moves-IsNormal,
  take_segment-Moves,
}
use mathlib.Core.List.{reverse, reverse-cons}

push_segment-room :
    (name : Name) (below : List Name) → length below < 64 → push_segment name below ≡ name ∷ below
unfolding push_segment
push_segment-room name below h = rw (lt→ltb (length below) 64 h) refl

length-push :
    (name : Name) (below : List Name) → length below ≤ 64 → length (push_segment name below) ≤ 64
unfolding push_segment
length-push name below h = elim (Bool-cases (ltb (length below) 64)) [
  | inl e ↦ let l = ltb→lt (length below) 64 e in rw e (omega arith)
  | inr e ↦ rw e h
]

length-Moves :
    {a : Bool} {name : Name} {segments after : List Name}
    → Moves a name segments after
    → length segments ≤ 64
    → length after ≤ 64
length-Moves (Moves.stays segments h) l = l
length-Moves (Moves.at_root r h e) l = l
length-Moves (Moves.leaves top rest h e f) l = omega arith
length-Moves {name = name} (Moves.climbs segments r h e t) l = length-push name segments l
length-Moves {name = name} (Moves.enters segments h f) l = length-push name segments l

length-Moves-suc :
    {a : Bool} {name : Name} {segments after : List Name}
    → Moves a name segments after
    → length segments < 64
    → length after ≤ suc (length segments)
length-Moves-suc (Moves.stays segments h) l = omega arith
length-Moves-suc (Moves.at_root r h e) l = omega arith
length-Moves-suc (Moves.leaves top rest h e f) l = omega arith
length-Moves-suc {name = name} (Moves.climbs segments r h e t) l =
    rw (push_segment-room name segments l) (omega arith)
length-Moves-suc {name = name} (Moves.enters segments h f) l =
    rw (push_segment-room name segments l) (omega arith)

-- The place that the segments lead to, from the last segment on.
walk_all-reverse :
    (base : List Name) (name : Name) (below : List Name)
    → walk_all base (reverse (name ∷ below)) ≡ walk_one (walk_all base (reverse below)) name
unfolding walk_all
walk_all-reverse base name below =
    ap (walk_all base) (reverse-cons name below) ∙ walk_all-append base (reverse below) (name ∷ [])

walk_one-push :
    (base : List Name) (name : Name) (segments : List Name)
    → length segments < 64
    → walk_all base (reverse (push_segment name segments))
      ≡ walk_one (walk_all base (reverse segments)) name
walk_one-push base name segments l =
    ap (λ s. walk_all base (reverse s)) (push_segment-room name segments l)
    ∙ walk_all-reverse base name segments

walk_one-Moves :
    {a : Bool} {name : Name} {segments after : List Name} (base : List Name)
    → (a ≡ true → base ≡ [])
    → length segments < 64
    → IsNormal a segments
    → Moves a name segments after
    → walk_all base (reverse after) ≡ walk_one (walk_all base (reverse segments)) name
unfolding walk_one IsNormal walk_all
walk_one-Moves base root l n (Moves.stays segments h) = rw h refl
walk_one-Moves base root l n (Moves.at_root r h e) =
    rw (h, root r, ap (λ m. same_name m above) e ∙ same_name_refl above) refl
walk_one-Moves {name = name} base root l n (Moves.leaves top rest h e f) =
    let s = n.0.not_here in
    let up : same_name name above ≡ true = ap (λ m. same_name m above) e ∙ same_name_refl above in
    sym (ap (λ p. walk_one p name) (walk_all-reverse base top rest) ∙ rw (s, f, h, up) refl)
walk_one-Moves {name = name} base root l n (Moves.climbs segments r h e t) =
    walk_one-push base name segments l
walk_one-Moves {name = name} base root l n (Moves.enters segments h f) =
    walk_one-push base name segments l

pub take_all-IsNormal :
    (a : Bool) (names segments : List Name)
    → AllNames names
    → IsNormal a segments
    → length segments ≤ 64
    → IsNormal a (take_all a names segments) × (length (take_all a names segments) ≤ 64)
unfolding take_all AllNames
take_all-IsNormal a [] segments h n l = (n, l)
take_all-IsNormal a (name ∷ names) segments (is, all) n l =
    let m = take_segment-Moves a segments name n in
    take_all-IsNormal a names (take_segment a segments name) all (Moves-IsNormal is n m)
      (length-Moves m l)

-- Up to 64 names the segments lead where the names lead.
pub walk_all-take_all :
    (a : Bool) (base : List Name) (names segments : List Name)
    → (a ≡ true → base ≡ [])
    → AllNames names
    → IsNormal a segments
    → length segments + length names ≤ 64
    → walk_all base (reverse (take_all a names segments))
      ≡ walk_all (walk_all base (reverse segments)) names
unfolding take_all AllNames walk_all
walk_all-take_all a base [] segments root h n l = refl
walk_all-take_all a base (name ∷ names) segments root (is, all) n l =
    let m = take_segment-Moves a segments name n in
    walk_all-take_all a base names (take_segment a segments name) root all (Moves-IsNormal is n m)
      (omega (arith, length-Moves-suc m (omega arith)))
    ∙ ap (λ p. walk_all p names) (walk_one-Moves base root (omega arith) n m)

take_all-append :
    (a : Bool) (xs ys segments : List Name)
    → take_all a (xs ++ ys) segments ≡ take_all a ys (take_all a xs segments)
unfolding take_all
take_all-append a [] ys segments = refl
take_all-append a (x ∷ xs) ys segments = take_all-append a xs ys (take_segment a segments x)

go_up-again : (below : List Name) → TopAbove below → go_up false below ≡ push_segment above below
unfolding go_up TopAbove
go_up-again [] t = refl
go_up-again (top ∷ rest) t = rw t refl

take_segment-again :
    (a : Bool) (name : Name) (below : List Name)
    → Segment a name below
    → length below < 64
    → take_segment a below name ≡ name ∷ below
unfolding take_segment
take_segment-again a name below s l = elim s.climbs [
  | inl e ↦ simp (s.not_here, e) (push_segment-room name below l)
  | inr (e, r, t) ↦
      simp (s.not_here, e, r)
        (go_up-again below t
          ∙ push_segment-room above below l
          ∙ ap (λ m. m ∷ below) (sym (same_name_sound name above e)))
]

-- Segments in normal form are taken as they are.
pub take_all-again :
    (a : Bool) (segments : List Name)
    → IsNormal a segments
    → length segments ≤ 64
    → take_all a (reverse segments) [] ≡ segments
unfolding take_all IsNormal
take_all-again a [] n l = refl
take_all-again a (name ∷ below) (s, n) l =
    ap (λ names. take_all a names []) (reverse-cons name below)
    ∙ take_all-append a (reverse below) (name ∷ []) []
    ∙ ap (λ t. take_segment a t name) (take_all-again a below n (omega arith))
    ∙ take_segment-again a name below s (omega arith)
