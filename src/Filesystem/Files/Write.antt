-- ===== src/Filesystem/Files/Write.antt =====
-- Writing and appending whole files.
use just_library.Base.{
  ℕ, suc, ◌<◌, ◌≡◌, refl, sym, ap, ◌∙◌, Bool, true, false, ◌⊎◌, inl, inr, none, some, List, [], ◌∷◌,
  length, append-nil, size_mod, Option-cases, arith,
}
use just_library.Base.Text.{Name}
use just_library.Filesystem.Os.{Os, IsLawful, or_empty}
use just_library.Filesystem.Files.{FileMode, write_opened, write_entire, append_entire, flags_of}
use just_library.Filesystem.Files.Writing.{
  Writing, Written, file_open-opened, file_open-refused, write_loop-Written,
}

module _ (os : Os) (law : IsLawful os) where
  -- `justFileWriteEntire` of a buffer whose length fits `size_t` ends: the file cannot be opened, it
  -- fails, and the state is what `open` left, or the path then holds a part from the front of the
  -- buffer, and the result says whether that is all of it.
  pub write_entire-Written :
      (path : Name) (buffer : List ℕ) (s : os.State)
      → length buffer < size_mod
      → (ok : Bool) × (s' : os.State) × (write_entire os path buffer s ≡ some (ok, s'))
        × (((ok ≡ false) × (os.open_file path (flags_of FileMode.for_write) s ≡ (none, s')))
            ⊎ Written os path [] buffer ok s')
  unfolding write_entire write_opened
  write_entire-Written path buffer s b =
      let result = os.open_file path (flags_of FileMode.for_write) s in
      elim (Option-cases result.0) [
        | inl r ↦ (
          false,
          result.1,
          ap (write_opened os buffer) (file_open-refused os path FileMode.for_write s r),
          inl (refl, ap (λ o. (o, result.1)) r),
        )
        | inr (fd, r) ↦
            let both : result ≡ (some fd, result.1) = ap (λ o. (o, result.1)) r in
            let w : Writing os fd path [] buffer 0 result.1 = record {
              file = record { path = path; position = 0; appends = false };
              at_file = law.opened-open path (flags_of FileMode.for_write) s result.1 fd both;
              same_path = refl;
              so_far = law.content-open path (flags_of FileMode.for_write) s result.1 fd both;
              at_end = refl;
              total-le = omega arith;
            } in
            let (ok, s', f, written) =
              write_loop-Written os law (suc (length buffer)) fd path [] buffer 0 result.1
                (omega arith) b w in
            (
              ok,
              s',
              ap (write_opened os buffer) (file_open-opened os path FileMode.for_write s fd r) ∙ f,
              inr written,
            )
      ]

  -- `justFileAppendEntire` of a buffer whose length fits `size_t` ends: a buffer that is empty changes
  -- nothing; the file cannot be opened, it fails, and the state is what `open` left; or the path
  -- then holds what it held with a part from the front of the buffer behind, and the result says
  -- whether that is all of it.
  pub append_entire-Written :
      (path : Name) (buffer : List ℕ) (s : os.State)
      → length buffer < size_mod
      → (ok : Bool) × (s' : os.State) × (append_entire os path buffer s ≡ some (ok, s'))
        × (((buffer ≡ []) × (ok ≡ true) × (s' ≡ s))
            ⊎ (((ok ≡ false) × (os.open_file path (flags_of FileMode.for_append) s ≡ (none, s')))
                ⊎ Written os path (or_empty (os.content path s)) buffer ok s'))
  unfolding append_entire write_opened
  append_entire-Written path [] s b = (true, s, refl, inl (refl, refl, refl))
  append_entire-Written path (c ∷ cs) s b =
      let buffer : List ℕ = c ∷ cs in
      let base = or_empty (os.content path s) in
      let result = os.open_file path (flags_of FileMode.for_append) s in
      elim (Option-cases result.0) [
        | inl r ↦ (
          false,
          result.1,
          ap (write_opened os (c ∷ cs)) (file_open-refused os path FileMode.for_append s r),
          inr (inl (refl, ap (λ o. (o, result.1)) r)),
        )
        | inr (fd, r) ↦
            let both : result ≡ (some fd, result.1) = ap (λ o. (o, result.1)) r in
            let w : Writing os fd path base buffer 0 result.1 = record {
              file = record { path = path; position = 0; appends = true };
              at_file = law.opened-open path (flags_of FileMode.for_append) s result.1 fd both;
              same_path = refl;
              so_far =
                  law.content-open path (flags_of FileMode.for_append) s result.1 fd both
                  ∙ ap some (sym (append-nil base));
              at_end = refl;
              total-le = omega arith;
            } in
            let (ok, s', f, written) =
              write_loop-Written os law (suc (length buffer)) fd path base buffer 0 result.1
                (omega arith) b w in
            (
              ok,
              s',
              ap (write_opened os (c ∷ cs)) (file_open-opened os path FileMode.for_append s fd r)
                  ∙ f,
              inr (inr written),
            )
      ]
