-- ===== src/Filesystem/Files/Writing.antt =====
-- The loop that writes a buffer.
use just_library.Base.{
  ℕ, zero, suc, ◌+◌, ◌-◌, ◌≤◌, ◌<◌, ◌≡◌, refl, sym, ap, subst, ◌∙◌, Bool, true, false, inl, inr,
  none, some, List, ◌++◌, length, take, drop, take-add, take-all, drop-all, length-append,
  length-take, length-drop, append-nil, append_assoc, size_mod, add_size-eq, ◌==◌, ltb, ltb→lt,
  Bool-cases, Option-cases, arith,
}
use just_library.Base.Text.{Name}
use just_library.Filesystem.Os.{Os, IsLawful, Opened, overwrite, write_position, moved}
use just_library.Filesystem.Files.{
  FileMode, closed, with_fd, file_open, file_write, file_close, write_loop, flags_of,
}

pub overwrite-end : (old bytes : List ℕ) → overwrite old (length old) bytes ≡ old ++ bytes
overwrite-end old bytes =
    rw (take-all old, drop-all (length old + length bytes) old (omega arith))
      (append-nil (old ++ bytes))

module _ (os : Os) where
  -- What a write of `buffer` behind `base` leaves: a part from its front, all of it after success.
  pub record Written (path : Name) (base buffer : List ℕ) (ok : Bool) (s : os.State) : Type 0 where
    pub count : ℕ
    pub count-le : count ≤ length buffer
    pub content-after : os.content path s ≡ some (base ++ take count buffer)
    pub whole : ok ≡ (count == length buffer)

  -- The file between two rounds of the loop.
  pub record Writing (fd : ℕ) (path : Name) (base buffer : List ℕ) (total : ℕ) (s : os.State)
      : Type 0 where
    pub file : Opened
    pub at_file : os.opened fd s ≡ some file
    pub same_path : file.path ≡ path
    pub so_far : os.content path s ≡ some (base ++ take total buffer)
    pub at_end :
        write_position file (base ++ take total buffer) ≡ length (base ++ take total buffer)
    pub total-le : total ≤ length buffer

  pub file_open-refused :
      (path : Name) (mode : FileMode) (s : os.State)
      → (os.open_file path (flags_of mode) s).0 ≡ none
      → file_open os path mode s ≡ (false, closed, (os.open_file path (flags_of mode) s).1)
  unfolding file_open
  file_open-refused path mode s r = rw (file_open, r) refl

  pub file_open-opened :
      (path : Name) (mode : FileMode) (s : os.State) (fd : ℕ)
      → (os.open_file path (flags_of mode) s).0 ≡ some fd
      → file_open os path mode s ≡ (true, with_fd fd, (os.open_file path (flags_of mode) s).1)
  unfolding file_open
  file_open-opened path mode s fd r = rw (file_open, r) refl

  pub write_loop-more :
      (n fd k : ℕ) (buffer : List ℕ) (total : ℕ) (s : os.State)
      → ltb total (length buffer) ≡ true
      → (os.write_file fd (drop total buffer) s).0 ≡ some (suc k)
      → total + suc k < size_mod
      → write_loop os (suc n) (with_fd fd) buffer total s
        ≡ write_loop os n
            (with_fd fd)
            buffer
            (total + suc k)
            (os.write_file fd (drop total buffer) s).1
  unfolding write_loop file_write
  write_loop-more n fd k buffer total s e r l =
      rw (write_loop, e, r)
        (ap (λ t. write_loop os n (with_fd fd) buffer t (os.write_file fd (drop total buffer) s).1)
          (add_size-eq total (suc k) l))

module _ (os : Os) (law : IsLawful os) where
  pub at_end-moved :
      (o : Opened) (old bytes : List ℕ)
      → write_position (moved o (length old + length bytes)) (old ++ bytes) ≡ length (old ++ bytes)
  at_end-moved o old bytes =
      elim o.appends
        as (λ b.
          elim b as (λ x. ℕ) [ true ↦ length (old ++ bytes) | false ↦ length old + length bytes ]
          ≡ length (old ++ bytes)) [ true ↦ refl | false ↦ sym (length-append old bytes) ]

  pub after-Writing :
      (fd n : ℕ) (path : Name) (base buffer : List ℕ) (total : ℕ) (s s' : os.State)
      → Writing os fd path base buffer total s
      → os.write_file fd (drop total buffer) s ≡ (some n, s')
      → (n ≤ length buffer - total) × Writing os fd path base buffer (total + n) s'
  after-Writing fd n path base buffer total s s' w e =
      let old = base ++ take total buffer in
      let c = ap (λ p. os.content p s) w.same_path ∙ w.so_far in
      let (l, c', o') =
        law.write-some fd n (drop total buffer) old w.file s s' w.at_file c
          (omega (arith, w.at_end)) e in
      let bytes = take n (drop total buffer) in
      let size : length bytes ≡ n = length-take n (drop total buffer) l in
      let text : overwrite old (write_position w.file old) bytes ≡ base ++ take (total + n) buffer =
        ap (λ p. overwrite old p bytes) w.at_end
        ∙ overwrite-end old bytes
        ∙ append_assoc base (take total buffer) bytes
        ∙ ap (λ t. base ++ t) (take-add total n buffer) in
      let text' : old ++ bytes ≡ base ++ take (total + n) buffer =
        append_assoc base (take total buffer) bytes
        ∙ ap (λ t. base ++ t) (take-add total n buffer) in
      let place : write_position w.file old + n ≡ length old + length bytes =
        omega (arith, w.at_end) in
      (
        omega (arith, length-drop total buffer, l),
        record {
          file = moved w.file (length old + length bytes);
          at_file = o' ∙ ap (λ p. some (moved w.file p)) place;
          same_path = w.same_path;
          so_far = ap (λ p. os.content p s') (sym w.same_path) ∙ c' ∙ ap some text;
          at_end =
              subst (λ t. write_position (moved w.file (length old + length bytes)) t ≡ length t)
                text' (at_end-moved w.file old bytes);
          total-le = let k = w.total-le in omega (arith, length-drop total buffer, l);
        },
      )

  pub stopped-Written :
      (fd : ℕ) (path : Name) (base buffer : List ℕ) (total : ℕ) (s : os.State)
      → total < length buffer
      → os.content path s ≡ some (base ++ take total buffer)
      → Written os path base buffer false (os.close_file fd s)
  stopped-Written fd path base buffer total s l c = record {
    count = total;
    count-le = omega arith;
    content-after = law.content-close fd path s ∙ c;
    whole = ground arith;
  }

  -- The loop ends, with what it has written in the file.
  pub write_loop-Written :
      (n fd : ℕ) (path : Name) (base buffer : List ℕ) (total : ℕ) (s : os.State)
      → length buffer < n + total
      → length buffer < size_mod
      → Writing os fd path base buffer total s
      → (ok : Bool) × (s' : os.State) × (write_loop os n (with_fd fd) buffer total s
          ≡ some (ok, s'))
        × Written os path base buffer ok s'
  unfolding write_loop file_write file_close
  write_loop-Written zero fd path base buffer total s l b w =
      let k = w.total-le in absurd (omega arith)
  write_loop-Written (suc n) fd path base buffer total s l b w =
      elim (Bool-cases (ltb total (length buffer))) [
        | inr e ↦ (
          total == length buffer,
          os.close_file fd s,
          rw (write_loop, e) refl,
          record {
            count = total;
            count-le = w.total-le;
            content-after = law.content-close fd path s ∙ w.so_far;
            whole = refl;
          },
        )
        | inl e ↦
            let short = ltb→lt total (length buffer) e in
            let result = os.write_file fd (drop total buffer) s in
            elim (Option-cases result.0) [
              | inl r ↦ (
                false,
                os.close_file fd result.1,
                rw (write_loop, e, r) refl,
                stopped-Written fd path base buffer total result.1 short (
                    law.write-refused fd (drop total buffer) path s result.1
                      (ap (λ o. (o, result.1)) r)
                    ∙ w.so_far),
              )
              | inr (zero, r) ↦
                  let (k, w') =
                    after-Writing fd zero path base buffer total s result.1 w
                      (ap (λ o. (o, result.1)) r) in
                  let same : total + 0 ≡ total = omega arith in
                  (
                    false,
                    os.close_file fd result.1,
                    rw (write_loop, e, r) refl,
                    stopped-Written fd path base buffer total result.1 short
                        (w'.so_far ∙ ap (λ t. some (base ++ take t buffer)) same),
                  )
              | inr (suc k, r) ↦
                  let (m, w') =
                    after-Writing fd (suc k) path base buffer total s result.1 w
                      (ap (λ o. (o, result.1)) r) in
                  let (ok, s', f, written) =
                    write_loop-Written n fd path base buffer (total + suc k) result.1 (omega arith)
                      b w' in
                  let more = write_loop-more os n fd k buffer total s e r (omega arith) in
                  (ok, s', more ∙ f, written)
            ]
      ]
