-- ===== src/Filesystem/Folders/Parents.antt =====
-- The loop of `justMkdirRecursive`.
use just_library.Base.{
  ℕ, ◌≡◌, refl, sym, ap, ◌∙◌, true, false, inl, inr, [], ◌∷◌, ◌++◌, ◌==◌, Bool-cases, append_assoc,
  append-nil,
}
use just_library.Base.Text.{Name}
use just_library.Filesystem.Os.{Os, IsLawful, Made}
use just_library.Filesystem.Path.{slash, is_empty}
use just_library.Filesystem.Folders.{there, make_parents}

module _ (os : Os) where
  -- The path is there, and every directory that it is said to lie in, from `front` on.
  pub record AllThere (front rest : Name) (s : os.State) : Type 0 where
    pub whole : os.present (front ++ rest) s ≡ true
    pub parents : (q r : Name) → rest ≡ q ++ slash ∷ r → os.present (front ++ q) s ≡ true

  -- What `justMkdirRecursive` leaves of a path.
  pub record Reached (path : Name) (s : os.State) : Type 0 where
    pub whole : os.present path s ≡ true
    pub parents : (q r : Name) → path ≡ q ++ slash ∷ r → is_empty q ≡ false → os.present q s ≡ true

module _ (os : Os) (law : IsLawful os) where
  pub there-present :
      (path : Name) (s : os.State)
      → there os (os.make_directory path s).0 ≡ true
      → os.present path (os.make_directory path s).1 ≡ true
  there-present path s h = found (os.make_directory path s).0 refl h
    where
      found :
          (r : Made)
          → (os.make_directory path s).0 ≡ r
          → there os r ≡ true
          → os.present path (os.make_directory path s).1 ≡ true
      found Made.made e t =
          law.present-made path s (os.make_directory path s).1
            (ap (λ r. (r, (os.make_directory path s).1)) e)
      found Made.already e t =
          law.present-already path s (os.make_directory path s).1
            (ap (λ r. (r, (os.make_directory path s).1)) e)
      found Made.failed e t = absurd (cc t)

  pub made-present :
      (path other : Name) (s : os.State)
      → os.present other s ≡ true
      → os.present other (os.make_directory path s).1 ≡ true
  made-present path other s h =
      law.present-kept path other s (os.make_directory path s).1 (os.make_directory path s).0 refl h

  pub make_parents-on :
      (front : Name) (c : ℕ) (cs : Name) (s : os.State)
      → (c == slash) ≡ false
      → make_parents os front (c ∷ cs) s ≡ make_parents os (front ++ c ∷ []) cs s
  unfolding make_parents
  make_parents-on front c cs s e = rw (make_parents, e) refl

  pub make_parents-into :
      (front : Name) (c : ℕ) (cs : Name) (s : os.State)
      → (c == slash) ≡ true
      → there os (os.make_directory front s).0 ≡ true
      → make_parents os front (c ∷ cs) s
        ≡ make_parents os (front ++ c ∷ []) cs (os.make_directory front s).1
  unfolding make_parents
  make_parents-into front c cs s e f = rw (make_parents, e, f) refl

  pub make_parents-stuck :
      (front : Name) (c : ℕ) (cs : Name) (s : os.State)
      → (c == slash) ≡ true
      → there os (os.make_directory front s).0 ≡ false
      → make_parents os front (c ∷ cs) s ≡ (false, (os.make_directory front s).1)
  unfolding make_parents
  make_parents-stuck front c cs s e f = rw (make_parents, e, f) refl

  -- What is there stays.
  pub present-make_parents :
      (front rest other : Name) (s : os.State)
      → os.present other s ≡ true
      → os.present other (make_parents os front rest s).1 ≡ true
  unfolding make_parents
  present-make_parents front [] other s h = made-present front other s h
  present-make_parents front (c ∷ cs) other s h = elim (Bool-cases (c == slash)) [
    | inr e ↦
        rw (make_parents-on front c cs s e) (present-make_parents (front ++ c ∷ []) cs other s h)
    | inl e ↦
        let kept = made-present front other s h in
        elim (Bool-cases (there os (os.make_directory front s).0)) [
          | inr f ↦ rw (make_parents-stuck front c cs s e f) kept
          | inl f ↦
              rw (make_parents-into front c cs s e f)
                (present-make_parents (front ++ c ∷ []) cs other (os.make_directory front s).1 kept)
        ]
  ]

  pub cons-AllThere :
      (front : Name) (c : ℕ) (cs : Name) (s : os.State)
      → (c ≡ slash → os.present front s ≡ true)
      → AllThere os (front ++ c ∷ []) cs s
      → AllThere os front (c ∷ cs) s
  cons-AllThere front c cs s first h = record {
    whole = ap (λ p. os.present p s) (sym (append_assoc front (c ∷ []) cs)) ∙ h.whole;
    parents = between;
  }
    where
      between : (q r : Name) → c ∷ cs ≡ q ++ slash ∷ r → os.present (front ++ q) s ≡ true
      between [] r e = ap (λ p. os.present p s) (append-nil front) ∙ first (cc e)
      between (d ∷ q) r e =
          let same : c ≡ d = cc e in
          let rest : cs ≡ q ++ slash ∷ r = cc e in
          ap (λ x. os.present (front ++ x ∷ q) s) (sym same)
          ∙ ap (λ p. os.present p s) (sym (append_assoc front (c ∷ []) q))
          ∙ h.parents q r rest
