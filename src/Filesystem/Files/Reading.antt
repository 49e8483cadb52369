-- ===== src/Filesystem/Files/Reading.antt =====
-- The loop that reads into a block.
use just_library.Base.{
  ℕ, zero, suc, ◌+◌, ◌-◌, ◌≤◌, ◌<◌, ◌≡◌, refl, sym, ap, ◌∙◌, true, inl, inr, some, List, [], ◌∷◌,
  length, take, drop, copy, length-copy, size_mod, add_size-eq, sub_size, sub_size-eq, ltb, ltb→lt,
  Bool-cases, Option-cases, arith,
}
use just_library.Base.Text.{Name}
use just_library.Memory.{Memory}
use just_library.Filesystem.Os.{Os, IsLawful, moved}
use just_library.Filesystem.Files.{with_fd, file_read, read_loop}
use just_library.Filesystem.Files.Block.{copy-Filled}
use just_library.Filesystem.Files.ReadBack.{Reading, Stopped, further}

module _ (os : Os) where
  pub read_loop-more :
      (n fd size total b : ℕ) (block bs : List ℕ) (s : os.State)
      → ltb total size ≡ true
      → (os.read_file fd (sub_size size total) s).0 ≡ some (b ∷ bs)
      → total + length (b ∷ bs) < size_mod
      → (m : Memory ℕ)
      → read_loop os m (suc n) (with_fd fd) size block total s
        ≡ read_loop os m n
            (with_fd fd)
            size
            (copy (length (b ∷ bs)) block total (b ∷ bs) 0)
            (total + length (b ∷ bs))
            (os.read_file fd (sub_size size total) s).1
  unfolding read_loop file_read
  read_loop-more n fd size total b block bs s e r l m =
      rw (read_loop, e, r)
        (ap
          (λ t.
            read_loop os m n (with_fd fd) size (copy (length (b ∷ bs)) block total (b ∷ bs) 0) t
              (os.read_file fd (sub_size size total) s).1)
          (add_size-eq total (length (b ∷ bs)) l))

module _ (os : Os) (law : IsLawful os) (m : Memory ℕ) where
  -- One round that reads something.
  pub chunk-Reading :
      (fd : ℕ) (path : Name) (content : List ℕ) (size total : ℕ) (block : List ℕ)
      (opened s : os.State) (chunk : List ℕ)
      → total < size
      → length content < size_mod
      → Reading os fd path content size total block opened s
      → os.read_file fd (sub_size size total) s
        ≡ (some chunk, (os.read_file fd (sub_size size total) s).1)
      → Reading os fd path content size
          (total + length chunk)
          (copy (length chunk) block total chunk 0)
          opened
          (os.read_file fd (sub_size size total) s).1
  chunk-Reading fd path content size total block opened s chunk short b w r =
      let s' = (os.read_file fd (sub_size size total) s).1 in
      let k = w.size-le in
      let left : sub_size size total ≡ size - total =
        sub_size-eq size total (omega arith) (omega arith) in
      let held = ap (λ p. os.content p s) w.same_path ∙ w.unchanged in
      let (len, text, some_read, same, at) =
        law.read-some fd (sub_size size total) chunk content w.file s s' w.at_file held r in
      let text' : chunk ≡ take (length chunk) (drop total content) =
        text ∙ ap (λ p. take (length chunk) (drop p content)) w.place in
      let most : total + length chunk ≤ size = omega arith in
      record {
        file = moved w.file (total + length chunk);
        at_file = at ∙ ap (λ p. some (moved w.file (p + length chunk))) w.place;
        same_path = w.same_path;
        place = refl;
        unchanged = ap (λ p. os.content p s') (sym w.same_path) ∙ same;
        room = length-copy (length chunk) block total chunk 0 ∙ w.room;
        size-le = k;
        total-size = most;
        filled =
            copy-Filled content total block chunk w.filled text' (omega arith)
              (let q = w.room in omega arith);
        reads = further chunk w.reads (ap (λ k. os.read_file fd k s) (sym left) ∙ r);
      }

  pub read_loop-Stopped :
      (n fd : ℕ) (path : Name) (content : List ℕ) (size total : ℕ) (block : List ℕ)
      (opened s : os.State)
      → size < n + total
      → length content < size_mod
      → Reading os fd path content size total block opened s
      → (total' : ℕ) × (block' : List ℕ) × (s' : os.State) × (read_loop os m n
            (with_fd fd)
            size
            block
            total
            s
          ≡ some (total', block', s'))
        × (total' ≤ size)
        × Stopped os fd path content size total' block' opened s'
  unfolding read_loop file_read
  read_loop-Stopped zero fd path content size total block opened s l b w =
      let k = w.total-size in absurd (omega arith)
  read_loop-Stopped (suc n) fd path content size total block opened s l b w =
      elim (Bool-cases (ltb total size)) [
        | inr e ↦ (
          total,
          block,
          s,
          rw (read_loop, e) refl,
          w.total-size,
          record {
            kept = w.unchanged;
            total_room = let k = w.room in let k' = w.total-size in omega arith;
            part = w.filled;
            reason = inl (let k = w.total-size in ground (arith, e));
          },
        )
        | inl e ↦
            let short = ltb→lt total size e in
            let wanted = sub_size size total in
            let left : wanted ≡ size - total =
              sub_size-eq size total (omega arith) (let k = w.size-le in omega arith) in
            let result = os.read_file fd wanted s in
            let held = ap (λ p. os.content p s) w.same_path ∙ w.unchanged in
            elim (Option-cases result.0) [
              | inl r ↦ (
                total,
                block,
                result.1,
                rw (read_loop, e, r) refl,
                w.total-size,
                record {
                  kept =
                      law.read-refused fd wanted path s result.1 (ap (λ o. (o, result.1)) r)
                      ∙ w.unchanged;
                  total_room = let k = w.room in omega arith;
                  part = w.filled;
                  reason = inr (
                    s,
                    result.1,
                    w.reads,
                    ap (λ k. os.read_file fd k s) (sym left) ∙ ap (λ o. (o, result.1)) r,
                  );
                },
              )
              | inr ([], r) ↦
                  let (h, h', h'', h3, h4) =
                    law.read-some fd wanted [] content w.file s result.1 w.at_file held
                      (ap (λ o. (o, result.1)) r) in
                  absurd (elim h'' [
                    | inl p ↦ omega arith
                    | inr (inl p) ↦ omega arith
                    | inr (inr p) ↦ let k = w.size-le in let k' = w.place in omega arith
                  ])
              | inr (c ∷ cs, r) ↦
                  let w' =
                    chunk-Reading fd path content size total block opened s (c ∷ cs) short b w
                      (ap (λ o. (o, result.1)) r) in
                  let fits : total + length (c ∷ cs) < size_mod =
                    let k = w'.total-size in let k' = w'.size-le in omega arith in
                  let (total', block', s', f, most, stopped) =
                    read_loop-Stopped n fd path content size (total + length (c ∷ cs))
                      (copy (length (c ∷ cs)) block total (c ∷ cs) 0) opened result.1 (omega arith)
                      b w' in
                  (
                    total',
                    block',
                    s',
                    read_loop-more os n fd size total c block cs s e r fits m ∙ f,
                    most,
                    stopped,
                  )
            ]
      ]
