-- ===== src/Filesystem/Files/Read.antt =====
-- Reading whole files.
use just_library.Base.{
  ℕ, suc, ◌+◌, ◌≤◌, ◌<◌, ◌≡◌, true, refl, sym, ap, ◌∙◌, false, ◌⊎◌, inl, inr, Option, none, some,
  List, length, set, size_mod, add_size, Option-cases, arith,
}
use just_library.Base.Text.{Name}
use just_library.Memory.{Memory}
use just_library.Filesystem.Os.{Os, IsLawful, Opened, or_empty}
use just_library.Filesystem.Files.{
  FileMode, with_fd, file_close, file_size, flags_of, finish_read, read_into, read_opened,
  read_entire,
}
use just_library.Filesystem.Files.Writing.{file_open-refused, file_open-opened}
use just_library.Filesystem.Files.ReadBack.{ReadBack, Reading, Measured, not_yet, Stopped-ReadBack}
use just_library.Filesystem.Files.Reading.{read_loop-Stopped}

module _ (os : Os) (m : Memory ℕ) where
  -- Why this call returns NULL: the file is not opened, or the block for the file and a terminator is
  -- refused, or `fstat` is refused and then a block of one byte.
  abbrev pub Refused : Name → List ℕ → os.State → m.Store → Type 0
  Refused path content s store =
      ((os.open_file path (flags_of FileMode.for_read) s).0 ≡ none)
      ⊎ ((m.tracked_malloc 1 (length content + 1) store).0 ≡ none)
      ⊎ ((fd : ℕ) × (opened : os.State) × (os.open_file path (flags_of FileMode.for_read) s
            ≡ (some fd, opened))
          × (os.fstat_size fd opened ≡ none)
          × ((m.tracked_malloc 1 1 store).0 ≡ none))

  -- How the call ends.
  abbrev pub Ends : Name → List ℕ → os.State → m.Store → Option (ℕ × List ℕ) → os.State → Type 0
  Ends path content s store result after =
      ((result ≡ none) × Refused path content s store)
      ⊎ ((total : ℕ) × (block : List ℕ) × (result ≡ some (total, block))
          × ReadBack os path content total block s after)

module _ (os : Os) (law : IsLawful os) (m : Memory ℕ) where
  finish_read-ReadBack :
      (fd : ℕ) (path : Name) (content : List ℕ) (size : ℕ) (block : List ℕ) (before s : os.State)
      (store : m.Store)
      → length content < size_mod
      → os.open_file path (flags_of FileMode.for_read) before ≡ (some fd, s)
      → Measured os fd content s size
      → Reading os fd path content size 0 block s s
      → (total : ℕ) × (block' : List ℕ) × (s' : os.State) × (read_into os m
            (with_fd fd)
            size
            s
            (some block, store)
          ≡ some (some (total, block'), s', store))
        × ReadBack os path content total block' before s'
  unfolding read_into finish_read file_close
  finish_read-ReadBack fd path content size block before s store b e measured w =
      let (total, block', s', f, most, stopped) =
        read_loop-Stopped os law m (suc size) fd path content size 0 block s s (omega arith) b w in
      (
        total,
        set block' total 0,
        os.close_file fd s',
        ap (finish_read os m (with_fd fd) store) f,
        Stopped-ReadBack os fd path content size total block' before s s' (os.close_file fd s') e
            (law.content-close fd path s') measured most stopped,
      )

  file_size-Measured :
      (fd : ℕ) (content : List ℕ) (o : Opened) (s : os.State)
      → os.opened fd s ≡ some o
      → os.content o.path s ≡ some content
      → Measured os fd content s (file_size os (with_fd fd) s)
  unfolding file_size
  file_size-Measured fd content o s a c = elim (Option-cases (os.fstat_size fd s)) [
    | inl e ↦ rw (file_size, e) (inr (refl, refl))
    | inr (n, e) ↦
        let same = law.fstat-length fd n content o s a c e in rw (file_size, e) (inl same)
  ]

  -- The block that was asked for is refused.
  block-Refused :
      (path : Name) (content : List ℕ) (fd size : ℕ) (before s : os.State) (store : m.Store)
      → suc (length content) < size_mod
      → os.open_file path (flags_of FileMode.for_read) before ≡ (some fd, s)
      → Measured os fd content s size
      → (m.tracked_malloc 1 (add_size size 1) store).0 ≡ none
      → Refused os m path content before store
  block-Refused path content fd size before s store b e (inl whole) k =
      let bytes : add_size size 1 ≡ length content + 1 = omega (arith, whole) in
      inr (inl (ap (λ n. (m.tracked_malloc 1 n store).0) (sym bytes) ∙ k))
  block-Refused path content fd size before s store b e (inr (none_asked, refused)) k =
      let bytes : add_size size 1 ≡ 1 = omega (arith, none_asked) in
      inr (inr (fd, s, e, refused, ap (λ n. (m.tracked_malloc 1 n store).0) (sym bytes) ∙ k))

  -- The file stands open at its start.
  opened-ReadBack :
      (path : Name) (content : List ℕ) (fd : ℕ) (before s : os.State) (store : m.Store)
      → os.open_file path (flags_of FileMode.for_read) before ≡ (some fd, s)
      → os.opened fd s ≡ some (record { path = path; position = 0; appends = false })
      → os.content path s ≡ some content
      → suc (length content) < size_mod
      → (result : Option (ℕ × List ℕ)) × (s' : os.State) × (store' : m.Store) × (read_opened os m
            store
            (true, with_fd fd, s)
          ≡ some (result, s', store'))
        × Ends os m path content before store result s'
  unfolding read_opened read_into file_close
  opened-ReadBack path content fd before s store e at same b =
      let measured = file_size-Measured fd content _ s at same in
      let size = file_size os (with_fd fd) s in
      let le : size ≤ length content = elim measured [
        | inl whole ↦ omega arith
        | inr (none_asked, r) ↦ omega arith
      ] in
      let asked = m.tracked_malloc 1 (add_size size 1) store in
      elim (Option-cases asked.0) [
        | inl k ↦ (
          none,
          os.close_file fd s,
          asked.1,
          ap (read_into os m (with_fd fd) size s) (ap (λ o. (o, asked.1)) k),
          inl (refl, block-Refused path content fd size before s store b e measured k),
        )
        | inr (block, k) ↦
            let granted : asked ≡ (some block, asked.1) = ap (λ o. (o, asked.1)) k in
            let wide = m.malloc-length 1 (add_size size 1) store asked.1 block granted in
            let w : Reading os fd path content size 0 block s s = record {
              file = record { path = path; position = 0; appends = false };
              at_file = at;
              same_path = refl;
              place = refl;
              unchanged = same;
              room = omega (arith, wide, le, b);
              size-le = le;
              total-size = omega arith;
              filled = record { total-le = omega arith; bytes = λ i h. absurd (omega (arith, h)) };
              reads = not_yet;
            } in
            let (total, block', s', f, back) =
              finish_read-ReadBack fd path content size block before s asked.1 (omega arith) e
                measured w in
            (
              some (total, block'),
              s',
              asked.1,
              ap (read_into os m (with_fd fd) size s) granted ∙ f,
              inr (total, block', refl, back),
            )
      ]

  -- `justFileReadEntire` of a file whose length and a terminator fit `size_t` ends: it returns NULL,
  -- and in this call the file was not opened or the memory was refused; or it returns a block with
  -- bytes from the front of the file and a terminator behind them, and the file is as it was. These
  -- are the whole file, unless `fstat` on the file just opened was refused, and then there are none,
  -- or the read that followed them was.
  pub read_entire-ReadBack :
      (path : Name) (content : List ℕ) (s : os.State) (store : m.Store)
      → os.content path s ≡ some content
      → suc (length content) < size_mod
      → (result : Option (ℕ × List ℕ)) × (s' : os.State) × (store' : m.Store) × (read_entire os m
            path s store
          ≡ some (result, s', store'))
        × Ends os m path content s store result s'
  unfolding read_entire read_opened
  read_entire-ReadBack path content s store held b =
      let opening = os.open_file path (flags_of FileMode.for_read) s in
      elim (Option-cases opening.0) [
        | inl r ↦ (
          none,
          opening.1,
          store,
          ap (read_opened os m store) (file_open-refused os path FileMode.for_read s r),
          inl (refl, inl r),
        )
        | inr (fd, r) ↦
            let both : opening ≡ (some fd, opening.1) = ap (λ o. (o, opening.1)) r in
            let at = law.opened-open path (flags_of FileMode.for_read) s opening.1 fd both in
            let same =
              law.content-open path (flags_of FileMode.for_read) s opening.1 fd both
              ∙ ap (λ o. some (or_empty o)) held in
            let (result, s', store', f, ends) =
              opened-ReadBack path content fd s opening.1 store both at same b in
            (
              result,
              s',
              store',
              ap (read_opened os m store) (file_open-opened os path FileMode.for_read s fd r) ∙ f,
              ends,
            )
      ]
