-- ===== src/Filesystem/Folders/Outcome.antt =====
-- How the loop of `justMkdirRecursive` ends.
use just_library.Base.{
  ℕ, ◌≡◌, refl, sym, ap, subst, ◌∙◌, Bool, true, false, inl, inr, ◌⊎◌, List, [], ◌∷◌, ◌++◌, ◌==◌,
  Bool-cases, append-nil, ==_iff,
}
use just_library.Base.Text.{Name}
use just_library.Filesystem.Os.{Os, IsLawful, Made}
use just_library.Filesystem.Path.{slash}
use just_library.Filesystem.Folders.{there, make_parents}
use just_library.Filesystem.Folders.Parents.{
  AllThere, there-present, cons-AllThere, make_parents-on, make_parents-into, make_parents-stuck,
  present-make_parents,
}

-- What lies in front of each '/' of `rest`, and the whole path, in order.
unfoldable pub fronts : Name → Name → List Name
fronts front [] = front ∷ []
fronts front (c ∷ cs) = elim (c == slash) [
  | false ↦ fronts (front ++ c ∷ []) cs
  | true ↦ front ∷ fronts (front ++ c ∷ []) cs
]

-- The same of a path, of which the loop starts behind the first character.
abbrev pub parts : Name → List Name
parts [] = []
parts (c ∷ cs) = fronts (c ∷ []) cs

module _ (os : Os) where
  -- Calls of `mkdir` for these paths in order, from a state on: each makes its directory or finds the
  -- name taken, up to one that fails for another reason, and the state that this one leaves.
  pub data Stuck : List Name → os.State → os.State → Type 0 where
    fails :
        {q : Name} {qs : List Name} {s s' : os.State}
        → os.make_directory q s ≡ (Made.failed, s')
        → Stuck (q ∷ qs) s s'
    passes :
        {q : Name} {qs : List Name} {s t s' : os.State}
        → (os.make_directory q s ≡ (Made.made, t)) ⊎ (os.make_directory q s ≡ (Made.already, t))
        → Stuck qs t s'
        → Stuck (q ∷ qs) s s'

  -- How the loop ends.
  unfoldable pub Outcome : Name → Name → os.State → Bool × os.State → Type 0
  Outcome front rest s (ok, s') =
      ((ok ≡ true) × AllThere os front rest s') ⊎ ((ok ≡ false) × Stuck (fronts front rest) s s')

module _ (os : Os) (law : IsLawful os) where
  failed-Stuck :
      (q : Name) (qs : List Name) (s : os.State)
      → there os (os.make_directory q s).0 ≡ false
      → Stuck os (q ∷ qs) s (os.make_directory q s).1
  failed-Stuck q qs s h = failed (os.make_directory q s).0 refl h
    where
      failed :
          (r : Made)
          → (os.make_directory q s).0 ≡ r
          → there os r ≡ false
          → Stuck os (q ∷ qs) s (os.make_directory q s).1
      failed Made.made e t = absurd (cc t)
      failed Made.already e t = absurd (cc t)
      failed Made.failed e t = fails (ap (λ r. (r, (os.make_directory q s).1)) e)

  there-Stuck :
      (q : Name) (qs : List Name) (s s' : os.State)
      → there os (os.make_directory q s).0 ≡ true
      → Stuck os qs (os.make_directory q s).1 s'
      → Stuck os (q ∷ qs) s s'
  there-Stuck q qs s s' h k = found (os.make_directory q s).0 refl h
    where
      found :
          (r : Made) → (os.make_directory q s).0 ≡ r → there os r ≡ true → Stuck os (q ∷ qs) s s'
      found Made.made e t = passes (inl (ap (λ r. (r, (os.make_directory q s).1)) e)) k
      found Made.already e t = passes (inr (ap (λ r. (r, (os.make_directory q s).1)) e)) k
      found Made.failed e t = absurd (cc t)

  fronts-on :
      (front : Name) (c : ℕ) (cs : Name)
      → (c == slash) ≡ false
      → fronts front (c ∷ cs) ≡ fronts (front ++ c ∷ []) cs
  unfolding fronts
  fronts-on front c cs e = rw (fronts, e) refl

  fronts-into :
      (front : Name) (c : ℕ) (cs : Name)
      → (c == slash) ≡ true
      → fronts front (c ∷ cs) ≡ front ∷ fronts (front ++ c ∷ []) cs
  unfolding fronts
  fronts-into front c cs e = rw (fronts, e) refl

  -- A step of the loop over another character, and one over a '/'.
  Outcome-on :
      (front : Name) (c : ℕ) (cs : Name) (s : os.State) (x : Bool × os.State)
      → (c == slash) ≡ false
      → Outcome os (front ++ c ∷ []) cs s x
      → Outcome os front (c ∷ cs) s x
  unfolding Outcome
  Outcome-on front c cs s (ok, s') e o = elim o [
    | inl (f, h) ↦ inl (
      f,
      cons-AllThere os law front c cs s' (λ same. absurd (cc (sym e ∙ (==_iff c slash).1 same))) h,
    )
    | inr (f, k) ↦ inr (f, subst (λ qs. Stuck os qs s s') (sym (fronts-on front c cs e)) k)
  ]

  Outcome-into :
      (front : Name) (c : ℕ) (cs : Name) (s : os.State) (x : Bool × os.State)
      → (c == slash) ≡ true
      → there os (os.make_directory front s).0 ≡ true
      → os.present front x.1 ≡ true
      → Outcome os (front ++ c ∷ []) cs (os.make_directory front s).1 x
      → Outcome os front (c ∷ cs) s x
  unfolding Outcome
  Outcome-into front c cs s (ok, s') e there_now kept o = elim o [
    | inl (f, h) ↦ inl (f, cons-AllThere os law front c cs s' (λ same. kept) h)
    | inr (f, k) ↦ inr (
      f,
      subst (λ qs. Stuck os qs s s') (sym (fronts-into front c cs e))
          (there-Stuck front (fronts (front ++ c ∷ []) cs) s s' there_now k),
    )
  ]

  Outcome-stuck :
      (front : Name) (c : ℕ) (cs : Name) (s : os.State)
      → (c == slash) ≡ true
      → there os (os.make_directory front s).0 ≡ false
      → Outcome os front (c ∷ cs) s (false, (os.make_directory front s).1)
  unfolding Outcome
  Outcome-stuck front c cs s e f = inr (
    refl,
    subst (λ qs. Stuck os qs s (os.make_directory front s).1) (sym (fronts-into front c cs e))
        (failed-Stuck front (fronts (front ++ c ∷ []) cs) s f),
  )

  pub make_parents-nil :
      (front : Name) (s : os.State) → Outcome os front [] s (make_parents os front [] s)
  unfolding make_parents Outcome fronts
  make_parents-nil front s = elim (Bool-cases (there os (os.make_directory front s).0)) [
    | inl e ↦ inl (
      e,
      record {
        whole =
            ap (λ p. os.present p (os.make_directory front s).1) (append-nil front)
            ∙ there-present os law front s e;
        parents = nowhere;
      },
    )
    | inr e ↦ inr (e, failed-Stuck front [] s e)
  ]
    where
      nowhere :
          (q r : Name)
          → [] ≡ q ++ slash ∷ r
          → os.present (front ++ q) (os.make_directory front s).1 ≡ true
      nowhere [] r f = absurd (cc f)
      nowhere (d ∷ q) r f = absurd (cc f)

  pub make_parents-Outcome :
      (front rest : Name) (s : os.State) → Outcome os front rest s (make_parents os front rest s)
  make_parents-Outcome front [] s = make_parents-nil front s
  make_parents-Outcome front (c ∷ cs) s = elim (Bool-cases (c == slash)) [
    | inr e ↦ subst (Outcome os front (c ∷ cs) s) (sym (make_parents-on os law front c cs s e)) (
        Outcome-on front c cs s (make_parents os (front ++ c ∷ []) cs s) e
          (make_parents-Outcome (front ++ c ∷ []) cs s))
    | inl e ↦ elim (Bool-cases (there os (os.make_directory front s).0)) [
      | inr f ↦
          subst (Outcome os front (c ∷ cs) s) (sym (make_parents-stuck os law front c cs s e f))
            (Outcome-stuck front c cs s e f)
      | inl f ↦
          let s' = (os.make_directory front s).1 in
          subst (Outcome os front (c ∷ cs) s) (sym (make_parents-into os law front c cs s e f)) (
            Outcome-into front c cs s (make_parents os (front ++ c ∷ []) cs s') e f
              (present-make_parents os law (front ++ c ∷ []) cs front s'
                (there-present os law front s f))
              (make_parents-Outcome (front ++ c ∷ []) cs s'))
    ]
  ]
