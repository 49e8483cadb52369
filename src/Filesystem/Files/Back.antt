-- ===== src/Filesystem/Files/Back.antt =====
-- Reading back what was written.
use just_library.Base.{
  ℕ, suc, ◌<◌, ◌≡◌, sym, ap, ◌∙◌, true, inl, inr, Option, some, List, length, take, take-all,
  size_mod, arith, ==_iff,
}
use just_library.Base.Text.{Name}
use just_library.Memory.{Memory}
use just_library.Filesystem.Os.{Os, IsLawful}
use just_library.Filesystem.Files.{write_entire, read_entire}
use just_library.Filesystem.Files.Write.{write_entire-Written}
use just_library.Filesystem.Files.Read.{Ends, read_entire-ReadBack}

module _ (os : Os) (law : IsLawful os) where
  content-write_entire :
      (path : Name) (buffer : List ℕ) (s s' : os.State)
      → length buffer < size_mod
      → write_entire os path buffer s ≡ some (true, s')
      → os.content path s' ≡ some buffer
  content-write_entire path buffer s s' b h =
      let (ok, after, f, o) = write_entire-Written os law path buffer s b in
      let same = sym f ∙ h in
      let good : ok ≡ true = cc same in
      let at : after ≡ s' = cc same in
      elim o [
        | inl (bad, r) ↦ absurd (cc (sym bad ∙ good))
        | inr w ↦
            let all : w.count ≡ length buffer =
              (==_iff w.count (length buffer)).0 (sym w.whole ∙ good) in
            ap (os.content path) (sym at)
            ∙ w.content-after
            ∙ ap (λ n. some (take n buffer)) all
            ∙ ap some (take-all buffer)
      ]

module _ (os : Os) (law : IsLawful os) (m : Memory ℕ) where
  -- After `justFileWriteEntire` has returned true for a buffer that fits `size_t` with a terminator,
  -- `justFileReadEntire` of the path ends: it returns NULL, and in this call the file was not opened
  -- or the memory was refused; or it returns a block with bytes from the front of the buffer and a
  -- terminator behind them. These are the whole buffer, unless `fstat` on the file just opened was
  -- refused, and then there are none, or the read that followed them was.
  pub read_entire-write_entire :
      (path : Name) (buffer : List ℕ) (s s' : os.State) (store : m.Store)
      → suc (length buffer) < size_mod
      → write_entire os path buffer s ≡ some (true, s')
      → (result : Option (ℕ × List ℕ)) × (after : os.State) × (store' : m.Store) × (read_entire os m
            path s' store
          ≡ some (result, after, store'))
        × Ends os m path buffer s' store result after
  read_entire-write_entire path buffer s s' store b h =
      read_entire-ReadBack os law m path buffer s' store
        (content-write_entire os law path buffer s s' (omega arith) h) b
