-- ===== src/Filesystem/Folders/Taken.antt =====
-- Making directories where a file stands.
use just_library.Base.{
  ◌<◌, ◌≡◌, refl, sym, ap, subst, ◌∙◌, Bool, true, false, inl, inr, Option, none, some, [], ◌∷◌,
  ◌++◌, length, leb, ◌==◌, Bool-cases, append_assoc, append-nil, ==_iff, arith,
}
use just_library.Base.Text.{Name}
use just_library.Filesystem.Os.{Os, IsLawful, Kind, Stat}
use just_library.Filesystem.Path.{slash, is_empty}
use just_library.Filesystem.Folders.{
  is_file, is_directory, is_regular, is_folder, mkdir, there, make_parents, mkdir_recursive,
}
use just_library.Filesystem.Folders.Parents.{make_parents-on, make_parents-into}

regular-folder : (o : Option Stat) → is_regular o ≡ true → is_folder o ≡ false
regular-folder none e = refl
regular-folder (some st) e = kind st.kind e
  where
    kind :
        (k : Kind)
        → elim k as (λ x. Bool) [ Kind.regular ↦ true | _ ↦ false ] ≡ true
        → elim k as (λ x. Bool) [ Kind.directory ↦ true | _ ↦ false ] ≡ false
    kind Kind.regular e = refl
    kind Kind.directory e = sym e
    kind Kind.other e = refl

module _ (os : Os) where
  -- `stat` finds something at the path.
  pub record Stands (path : Name) (s : os.State) : Type 0 where
    pub found : Stat
    pub stat-found : os.stat path s ≡ some found

  regular-Stands : (path : Name) (s : os.State) → is_file os path s ≡ true → Stands path s
  regular-Stands path s e = stands (os.stat path s) refl e
    where
      stands : (o : Option Stat) → os.stat path s ≡ o → is_regular o ≡ true → Stands path s
      stands none f g = absurd (cc g)
      stands (some st) f g = record { found = st; stat-found = f }

  -- The same is found in two states.
  abbrev Unchanged : os.State → os.State → Type 0
  Unchanged s s' = (other : Name) → os.stat other s' ≡ os.stat other s

  abbrev Passes : os.State → Bool × os.State → Type 0
  Passes s (ok, s') = (ok ≡ true) × Unchanged s s'

module _ (os : Os) (law : IsLawful os) where
  kept-Stands :
      (path : Name) (s s' : os.State) → Unchanged os s s' → Stands os path s → Stands os path s'
  kept-Stands path s s' same h = record { found = h.found; stat-found = same path ∙ h.stat-found }

  there-Stands :
      (path : Name) (s : os.State)
      → Stands os path s
      → Passes os s (there os (os.make_directory path s).0, (os.make_directory path s).1)
  there-Stands path s h =
      let (e, same) = law.already-stat path s h.found h.stat-found in (ap (there os) e, same)

  -- Where everything in front of a '/' stands, and the path, the loop passes and changes nothing.
  make_parents-Stands :
      (front rest : Name) (s : os.State)
      → Stands os (front ++ rest) s
      → ((q r : Name) → rest ≡ q ++ slash ∷ r → Stands os (front ++ q) s)
      → Passes os s (make_parents os front rest s)
  unfolding make_parents
  make_parents-Stands front [] s h parents =
      there-Stands front s (subst (λ p. Stands os p s) (append-nil front) h)
  make_parents-Stands front (c ∷ cs) s h parents =
      let whole = subst (λ p. Stands os p s) (sym (append_assoc front (c ∷ []) cs)) h in
      let later : (q r : Name) → cs ≡ q ++ slash ∷ r → Stands os ((front ++ c ∷ []) ++ q) s =
        λ q r e.
          subst (λ p. Stands os p s) (sym (append_assoc front (c ∷ []) q))
            (parents (c ∷ q) r (ap (λ t. c ∷ t) e)) in
      elim (Bool-cases (c == slash)) [
        | inr e ↦
            subst (Passes os s) (sym (make_parents-on os law front c cs s e))
              (make_parents-Stands (front ++ c ∷ []) cs s whole later)
        | inl e ↦
            let is : c ≡ slash = (==_iff c slash).0 e in
            let first =
              subst (λ p. Stands os p s) (append-nil front) (parents [] cs (ap (λ t. t ∷ cs) is)) in
            let (f, same) = there-Stands front s first in
            let s' = (os.make_directory front s).1 in
            let (ok, same') =
              make_parents-Stands (front ++ c ∷ []) cs s' (kept-Stands _ s s' same whole)
                (λ q r g. kept-Stands _ s s' same (later q r g)) in
            subst (Passes os s) (sym (make_parents-into os law front c cs s e f))
              (ok, λ other. same' other ∙ same other)
      ]

  -- At a path of fewer than 1,024 characters a regular file stands, and something stands at every
  -- part of the path in front of a '/': `justMkdir` returns false, `justMkdirRecursive` returns true,
  -- and the path is still a file and no directory.
  pub mkdir_recursive-file :
      (path : Name) (s : os.State)
      → is_empty path ≡ false
      → length path < 1024
      → is_file os path s ≡ true
      → ((q r : Name) → path ≡ q ++ slash ∷ r → is_empty q ≡ false → Stands os q s)
      → ((mkdir os path s).0 ≡ false)
        × ((s' : os.State) × (mkdir_recursive os path s ≡ some (true, s'))
            × (is_file os path s' ≡ true)
            × (is_directory os path s' ≡ false))
  unfolding mkdir mkdir_recursive
  mkdir_recursive-file [] s n l file parents = absurd (cc n)
  mkdir_recursive-file (c ∷ cs) s n l file parents =
      let path : Name = c ∷ cs in
      let h = regular-Stands os path s file in
      let (e, same) = law.already-stat path s h.found h.stat-found in
      let short : leb 1024 (length (c ∷ cs)) ≡ false = ground arith in
      let (ok, same') =
        make_parents-Stands (c ∷ []) cs s h (λ q r g. parents (c ∷ q) r (ap (λ t. c ∷ t) g) refl) in
      let after = (make_parents os (c ∷ []) cs s).1 in
      (
        rw (mkdir, e) (ap is_folder (same path) ∙ regular-folder (os.stat path s) file),
        (
          after,
          rw (mkdir_recursive, short) (ap (λ b. some (b, after)) ok),
          ap is_regular (same' path) ∙ file,
          ap is_folder (same' path) ∙ regular-folder (os.stat path s) file,
        ),
      )
