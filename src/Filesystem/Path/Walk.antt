-- ===== src/Filesystem/Path/Walk.antt =====
-- Where a path leads in a tree without symbolic links, and what the loop of `justPathNormalize`
-- makes of it.
use just_library.Base.{
  ◌≡◌, refl, sym, ap, subst, ◌∙◌, Bool, true, false, inl, inr, ◌⊎◌, List, [], ◌∷◌, ◌++◌, length,
  if◌then◌else◌, ltb, Bool-cases,
}
use just_library.Base.Text.{Name, same_name, same_name_refl, same_name_sound}
use just_library.Filesystem.Path.{here, above, push_segment, go_up, take_segment}
use just_library.Filesystem.Path.Split.{IsName}

-- One step of a walk; a place is the list of the names that lead to it from the root, the last one in
-- front. The root is above itself.
unfoldable pub walk_one : List Name → Name → List Name
walk_one place name =
    if same_name name here
    then place
    else if same_name name above
    then elim place [ [] ↦ [] | top ∷ rest ↦ rest ]
    else name ∷ place

unfoldable pub walk_all : List Name → List Name → List Name
walk_all place [] = place
walk_all place (name ∷ names) = walk_all (walk_one place name) names

pub walk_all-append :
    (place : List Name) (xs ys : List Name)
    → walk_all place (xs ++ ys) ≡ walk_all (walk_all place xs) ys
unfolding walk_all
walk_all-append place [] ys = refl
walk_all-append place (x ∷ xs) ys = walk_all-append (walk_one place x) xs ys

-- The segments are in normal form: no ".", and a ".." only at the start of a relative path.
unfoldable pub TopAbove : List Name → Type 0
TopAbove [] = Unit {0}
TopAbove (top ∷ rest) = same_name top above ≡ true

pub record Segment (is_absolute : Bool) (name : Name) (below : List Name) : Type 0 where
  pub name-IsName : IsName name
  pub not_here : same_name name here ≡ false
  pub climbs :
      (same_name name above ≡ false)
      ⊎ ((same_name name above ≡ true) × (is_absolute ≡ false) × TopAbove below)

unfoldable pub IsNormal : Bool → List Name → Type 0
IsNormal is_absolute [] = Unit {0}
IsNormal is_absolute (name ∷ below) = Segment is_absolute name below × IsNormal is_absolute below

-- What the body of the loop does with a name.
pub data Moves (a : Bool) (name : Name) : List Name → List Name → Type 0 where
  stays : (segments : List Name) → same_name name here ≡ true → Moves a name segments segments
  at_root : a ≡ true → same_name name here ≡ false → name ≡ above → Moves a name [] []
  leaves :
      (top : Name) (rest : List Name)
      → same_name name here ≡ false
      → name ≡ above
      → same_name top above ≡ false
      → Moves a name (top ∷ rest) rest
  climbs :
      (segments : List Name)
      → a ≡ false
      → same_name name here ≡ false
      → name ≡ above
      → TopAbove segments
      → Moves a name segments (push_segment name segments)
  enters :
      (segments : List Name)
      → same_name name here ≡ false
      → same_name name above ≡ false
      → Moves a name segments (push_segment name segments)

go_up-Moves :
    (a : Bool) (name : Name) (segments : List Name)
    → IsNormal a segments
    → same_name name here ≡ false
    → name ≡ above
    → Moves a name segments (go_up a segments)
unfolding go_up IsNormal TopAbove
go_up-Moves true name [] n h e = Moves.at_root refl h e
go_up-Moves false name [] n h e =
    subst (λ m. Moves false name [] (push_segment m [])) e (Moves.climbs [] refl h e tt)
go_up-Moves a name (top ∷ rest) (s, n) h e = elim s.climbs [
  | inl f ↦ rw f (Moves.leaves top rest h e f)
  | inr (f, g, t) ↦
      rw (f, g)
        (subst (λ m. Moves false name (top ∷ rest) (push_segment m (top ∷ rest))) e
          (Moves.climbs (top ∷ rest) refl h e f))
]

pub take_segment-Moves :
    (a : Bool) (segments : List Name) (name : Name)
    → IsNormal a segments
    → Moves a name segments (take_segment a segments name)
unfolding take_segment
take_segment-Moves a segments name n = elim (Bool-cases (same_name name here)) [
  | inl h ↦ rw h (Moves.stays segments h)
  | inr h ↦ elim (Bool-cases (same_name name above)) [
    | inl e ↦ rw (h, e) (go_up-Moves a name segments n h (same_name_sound name above e))
    | inr e ↦ rw (h, e) (Moves.enters segments h e)
  ]
]

push_segment-IsNormal :
    (a : Bool) (name : Name) (below : List Name)
    → Segment a name below
    → IsNormal a below
    → IsNormal a (push_segment name below)
unfolding push_segment IsNormal
push_segment-IsNormal a name below h n = elim (Bool-cases (ltb (length below) 64)) [
  | inl e ↦
      let both : Segment a name below × IsNormal a below = (h, n) in
      subst (λ t. IsNormal a (if t then name ∷ below else below)) (sym e) both
  | inr e ↦ rw e n
]

pub Moves-IsNormal :
    {a : Bool} {name : Name} {segments after : List Name}
    → IsName name
    → IsNormal a segments
    → Moves a name segments after
    → IsNormal a after
unfolding IsNormal
Moves-IsNormal is n (Moves.stays segments h) = n
Moves-IsNormal is n (Moves.at_root r h e) = n
Moves-IsNormal is n (Moves.leaves top rest h e f) = n.1
Moves-IsNormal {a = a} {name = name} is n (Moves.climbs segments r h e t) =
    push_segment-IsNormal a name segments
      (record {
        name-IsName = is;
        not_here = h;
        climbs = inr (ap (λ m. same_name m above) e ∙ same_name_refl above, r, t);
      })
      n
Moves-IsNormal {a = a} {name = name} is n (Moves.enters segments h f) =
    push_segment-IsNormal a name segments
      (record { name-IsName = is; not_here = h; climbs = inl f }) n
