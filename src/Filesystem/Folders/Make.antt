-- ===== src/Filesystem/Folders/Make.antt =====
-- What making directories leaves.
use just_library.Base.{
  ℕ, ◌≤◌, ◌≡◌, refl, sym, ap, ◌∙◌, Bool, true, false, inl, inr, ◌⊎◌, some, [], ◌∷◌, ◌++◌, length,
  leb, Bool-cases, arith,
}
use just_library.Base.Text.{Name}
use just_library.Filesystem.Os.{Os, IsLawful}
use just_library.Filesystem.Path.{slash, is_empty}
use just_library.Filesystem.Folders.{make_parents, mkdir_recursive}
use just_library.Filesystem.Folders.Parents.{AllThere, Reached}
use just_library.Filesystem.Folders.Outcome.{Outcome, Stuck, parts, make_parents-Outcome}

module _ (os : Os) (law : IsLawful os) where
  AllThere-Reached :
      (c : ℕ) (cs : Name) (s : os.State) → AllThere os (c ∷ []) cs s → Reached os (c ∷ cs) s
  AllThere-Reached c cs s h = record { whole = h.whole; parents = parents }
    where
      parents : (q r : Name) → c ∷ cs ≡ q ++ slash ∷ r → is_empty q ≡ false → os.present q s ≡ true
      parents [] r e n = absurd (cc n)
      parents (d ∷ q) r e n =
          let same : c ≡ d = cc e in
          let rest : cs ≡ q ++ slash ∷ r = cc e in
          ap (λ x. os.present (x ∷ q) s) (sym same) ∙ h.parents q r rest

  -- `justMkdirRecursive` of a path that is not empty either returns true, and then there is an entry of
  -- the path and of every part of it, if not empty, in front of a '/'; or it returns false, and then
  -- the path has 1,024 characters or more and nothing was done, or it had called `mkdir` for what lies
  -- in front of each '/' behind the first character and for the whole path, in order, up to
  -- one that failed, and not because the name was there, and that is the state it leaves.
  pub mkdir_recursive-Reached :
      (path : Name) (s : os.State)
      → is_empty path ≡ false
      → (ok : Bool) × (s' : os.State) × (mkdir_recursive os path s ≡ some (ok, s'))
        × (((ok ≡ true) × Reached os path s')
            ⊎ (((ok ≡ false) × (1024 ≤ length path) × (s' ≡ s))
                ⊎ ((ok ≡ false) × Stuck os (parts path) s s')))
  unfolding mkdir_recursive Outcome
  mkdir_recursive-Reached [] s n = absurd (cc n)
  mkdir_recursive-Reached (c ∷ cs) s n = elim (Bool-cases (leb 1024 (length (c ∷ cs)))) [
    | inl e ↦ (false, s, rw (mkdir_recursive, e) refl, inr (inl (refl, ground (arith, e), refl)))
    | inr e ↦
        let result = make_parents os (c ∷ []) cs s in
        (
          result.0,
          result.1,
          rw (mkdir_recursive, e) refl,
          elim (make_parents-Outcome os law (c ∷ []) cs s) [
            | inl (f, h) ↦ inl (f, AllThere-Reached c cs result.1 h)
            | inr f ↦ inr (inr f)
          ],
        )
  ]
