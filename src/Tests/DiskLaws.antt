-- ===== src/Tests/DiskLaws.antt =====
-- The operating system of the tests is lawful.
use just_library.Base.{
  ℕ, zero, suc, ◌+◌, ◌≤◌, ◌<◌, ◌≡◌, refl, sym, ap, subst, ◌∙◌, true, false, ◌⊎◌, inl, inr, Option,
  none, some, List, [], ◌∷◌, length, take, drop, arith, is_some, length-drop, Bool-cases,
}
use just_library.Base.Text.{Name, same_name, same_name_refl}
use just_library.Filesystem.Os.{
  IsLawful, Opened, Made, Stat, moved, overwrite, write_position, or_empty,
}
use just_library.Tests.Disk.{
  Disk, with_held, at_most, few, write_held, write_slot, read_held, read_slot, size_held, size_slot,
  make_held, stat_held, disk,
}

held_self :
    (d : Disk) (path : Name) (bytes : List ℕ) (slot : Option Opened)
    → (with_held d path bytes slot).held path ≡ some bytes
held_self d path bytes slot = rw (same_name_refl path) refl

at_most-le : (n : ℕ) (bytes : List ℕ) → at_most n bytes ≤ length bytes
at_most-le zero bytes = omega arith
at_most-le (suc n) [] = omega arith
at_most-le (suc n) (b ∷ bs) = omega (arith, at_most-le n bs)

few-le : (n : ℕ) (bytes : List ℕ) → length (few n bytes) ≤ n
few-le zero bytes = omega arith
few-le (suc n) [] = omega arith
few-le (suc n) (b ∷ bs) = omega arith

few-take : (n : ℕ) (bytes : List ℕ) → few n bytes ≡ take (length (few n bytes)) bytes
few-take zero bytes = refl
few-take (suc n) [] = refl
few-take (suc n) (b ∷ bs) = refl

few-some : (n : ℕ) (bytes : List ℕ) → (0 < length (few n bytes)) ⊎ (n ≡ 0) ⊎ (length bytes ≡ 0)
few-some zero bytes = inr (inl refl)
few-some (suc n) [] = inr (inr refl)
few-some (suc n) (b ∷ bs) = inl (omega arith)

write_disk-eq :
    (bytes old : List ℕ) (o : Opened) (d : Disk)
    → d.slot ≡ some o
    → d.held o.path ≡ some old
    → write_slot bytes d d.slot ≡ (
      some (at_most 2 bytes),
      with_held d o.path
          (overwrite old (write_position o old) (take (at_most 2 bytes) bytes))
          (some (moved o (write_position o old + at_most 2 bytes))),
    )
write_disk-eq bytes old o d s h = ap (write_slot bytes d) s ∙ ap (write_held bytes d o) h

disk-write :
    (fd n : ℕ) (bytes old : List ℕ) (o : Opened) (s s' : Disk)
    → s.slot ≡ some o
    → s.held o.path ≡ some old
    → write_position o old ≤ length old
    → write_slot bytes s s.slot ≡ (some n, s')
    → (n ≤ length bytes)
      × (s'.held o.path ≡ some (overwrite old (write_position o old) (take n bytes)))
      × (s'.slot ≡ some (moved o (write_position o old + n)))
disk-write fd n bytes old o s s' a h l e =
    let f = sym (write_disk-eq bytes old o s a h) ∙ e in
    let k : at_most 2 bytes ≡ n = cc f in
    let t = ap (λ (x : Option ℕ × Disk). x.1) f in
    (
      subst (λ i. i ≤ length bytes) k (at_most-le 2 bytes),
      ap (λ (d : Disk). d.held o.path) (sym t)
          ∙ held_self s o.path (overwrite old (write_position o old) (take (at_most 2 bytes) bytes))
              (some (moved o (write_position o old + at_most 2 bytes)))
          ∙ ap (λ i. some (overwrite old (write_position o old) (take i bytes))) k,
      ap (λ (d : Disk). d.slot) (sym t) ∙ ap (λ i. some (moved o (write_position o old + i))) k,
    )

read_disk-eq :
    (wanted : ℕ) (old : List ℕ) (o : Opened) (d : Disk)
    → d.slot ≡ some o
    → d.held o.path ≡ some old
    → read_slot wanted d d.slot ≡ (
      some (few wanted (drop o.position old)),
      record {
        held = d.held;
        slot = some (moved o (o.position + length (few wanted (drop o.position old))));
      },
    )
read_disk-eq wanted old o d s h = ap (read_slot wanted d) s ∙ ap (read_held wanted d o) h

disk-read :
    (fd wanted : ℕ) (bytes old : List ℕ) (o : Opened) (s s' : Disk)
    → s.slot ≡ some o
    → s.held o.path ≡ some old
    → read_slot wanted s s.slot ≡ (some bytes, s')
    → (length bytes ≤ wanted)
      × (bytes ≡ take (length bytes) (drop o.position old))
      × ((0 < length bytes) ⊎ (wanted ≡ 0) ⊎ (length old ≤ o.position))
      × (s'.held o.path ≡ some old)
      × (s'.slot ≡ some (moved o (o.position + length bytes)))
disk-read fd wanted bytes old o s s' a h e =
    let f = sym (read_disk-eq wanted old o s a h) ∙ e in
    let rest = drop o.position old in
    let k : few wanted rest ≡ bytes = cc f in
    let t = ap (λ (x : Option (List ℕ) × Disk). x.1) f in
    let left = length-drop o.position old in
    (
      subst (λ b. length b ≤ wanted) k (few-le wanted rest),
      subst (λ b. b ≡ take (length b) rest) k (few-take wanted rest),
      elim (few-some wanted rest) [
        | inl p ↦ inl (subst (λ b. 0 < length b) k p)
        | inr (inl p) ↦ inr (inl p)
        | inr (inr p) ↦ inr (inr (omega arith))
      ],
      ap (λ (d : Disk). d.held o.path) (sym t) ∙ h,
      ap (λ (d : Disk). d.slot) (sym t) ∙ ap (λ b. some (moved o (o.position + length b))) k,
    )

-- A call that is refused leaves the disk.
write_slot-refused :
    (bytes : List ℕ) (slot : Option Opened) (d d' : Disk)
    → write_slot bytes d slot ≡ (none, d')
    → d' ≡ d
write_slot-refused bytes none d d' e = sym (ap (λ (x : Option ℕ × Disk). x.1) e)
write_slot-refused bytes (some o) d d' e = held (d.held o.path) e
  where
    held : (old : Option (List ℕ)) → write_held bytes d o old ≡ (none, d') → d' ≡ d
    held none f = sym (ap (λ (x : Option ℕ × Disk). x.1) f)
    held (some old) f = absurd (cc (ap (λ (x : Option ℕ × Disk). x.0) f))

read_slot-refused :
    (wanted : ℕ) (slot : Option Opened) (d d' : Disk)
    → read_slot wanted d slot ≡ (none, d')
    → d' ≡ d
read_slot-refused wanted none d d' e = sym (ap (λ (x : Option (List ℕ) × Disk). x.1) e)
read_slot-refused wanted (some o) d d' e = held (d.held o.path) e
  where
    held : (old : Option (List ℕ)) → read_held wanted d o old ≡ (none, d') → d' ≡ d
    held none f = sym (ap (λ (x : Option (List ℕ) × Disk). x.1) f)
    held (some old) f = absurd (cc (ap (λ (x : Option (List ℕ) × Disk). x.0) f))

present-made :
    (path : Name) (held : Option (List ℕ)) (d d' : Disk)
    → make_held d path held ≡ (Made.made, d')
    → is_some (d'.held path) ≡ true
present-made path none d d' e =
    ap (λ (x : Made × Disk). is_some (x.1.held path)) (sym e)
    ∙ ap is_some (held_self d path [] d.slot)
present-made path (some old) d d' e = absurd (cc (ap (λ (x : Made × Disk). x.0) e))

present-already :
    (path : Name) (held : Option (List ℕ)) (d d' : Disk)
    → d.held path ≡ held
    → make_held d path held ≡ (Made.already, d')
    → is_some (d'.held path) ≡ true
present-already path none d d' h e = absurd (cc (ap (λ (x : Made × Disk). x.0) e))
present-already path (some old) d d' h e =
    ap (λ (x : Made × Disk). is_some (x.1.held path)) (sym e) ∙ ap is_some h

present-kept :
    (path other : Name) (held : Option (List ℕ)) (d d' : Disk) (r : Made)
    → make_held d path held ≡ (r, d')
    → is_some (d.held other) ≡ true
    → is_some (d'.held other) ≡ true
present-kept path other (some old) d d' r e h =
    ap (λ (x : Made × Disk). is_some (x.1.held other)) (sym e) ∙ h
present-kept path other none d d' r e h =
    ap (λ (x : Made × Disk). is_some (x.1.held other)) (sym e)
    ∙ elim (Bool-cases (same_name other path)) [ inl s ↦ rw s refl | inr s ↦ rw s h ]

already-stat :
    (path : Name) (d : Disk) (st : Stat)
    → stat_held (d.held path) ≡ some st
    → ((make_held d path (d.held path)).0 ≡ Made.already)
      × ((other : Name)
          → stat_held ((make_held d path (d.held path)).1.held other) ≡ stat_held (d.held other))
already-stat path d st e = taken (d.held path) e
  where
    taken :
        (held : Option (List ℕ))
        → stat_held held ≡ some st
        → ((make_held d path held).0 ≡ Made.already)
          × ((other : Name)
              → stat_held ((make_held d path held).1.held other) ≡ stat_held (d.held other))
    taken none f = absurd (cc f)
    taken (some bytes) f = (refl, λ other. refl)

pub disk-IsLawful : IsLawful disk
disk-IsLawful = record {
  opened-open = λ path f s s' fd e. ap (λ (x : Option ℕ × Disk). x.1.slot) (sym e);
  content-open = λ path f s s' fd e.
      ap (λ (x : Option ℕ × Disk). x.1.held path) (sym e)
      ∙ held_self s path (elim f.truncates [ true ↦ [] | false ↦ or_empty (s.held path) ])
          (some (record { path = path; position = 0; appends = f.appends }));
  content-close = λ fd path s. refl;
  write-refused = λ fd bytes path s s' e.
      ap (λ (d : Disk). d.held path) (write_slot-refused bytes s.slot s s' e);
  write-some = λ fd n bytes old o s s' a h l e. disk-write fd n bytes old o s s' a h l e;
  read-refused = λ fd wanted path s s' e.
      ap (λ (d : Disk). d.held path) (read_slot-refused wanted s.slot s s' e);
  read-some = λ fd wanted bytes old o s s' a h e. disk-read fd wanted bytes old o s s' a h e;
  fstat-length = λ fd n old o s a h e.
      let f : some (length old) ≡ some n = sym (ap (size_slot s) a ∙ ap size_held h) ∙ e in
      sym (cc f);
  present-made = λ path s s' e. present-made path (s.held path) s s' e;
  present-already = λ path s s' e. present-already path (s.held path) s s' refl e;
  present-kept = λ path other s s' r e h. present-kept path other (s.held path) s s' r e h;
  already-stat = λ path s st e. already-stat path s st e;
}
