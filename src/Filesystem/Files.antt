-- ===== src/Filesystem/Files.antt =====
-- Open files and whole files of src/system/filesystem.c. The descriptor -1 is `none`; `false` with its
-- byte count of 0 is `none`, and the bytes are what the buffer holds after a read.
pub mod Writing
pub mod Write
pub mod Block
pub mod ReadBack
pub mod Reading
pub mod Read
pub mod Back
use just_library.Base.{
  ℕ, zero, suc, ◌+◌, ◌-◌, Bool, true, false, Option, none, some, List, [], ◌∷◌, length, drop, set,
  copy, add_size, sub_size, ◌==◌, ltb,
}
use just_library.Base.Int.{ℤ, pos}
use just_library.Base.Text.{Name}
use just_library.Memory.{Memory}
use just_library.Filesystem.Os.{Os, Flags, Whence}

-- `JustFileMode`
pub data FileMode : Type 0 where
  for_read for_write for_append for_read_write : FileMode

-- `JustSeekOrigin`
pub data SeekOrigin : Type 0 where
  seek_set seek_cur seek_end : SeekOrigin

-- `JustFile`
pub record JustFile : Type 0 where
  pub fd : Option ℕ
  pub is_open : Bool

-- The `switch` of `justFileOpen`.
abbrev pub flags_of : FileMode → Flags
flags_of FileMode.for_read = record {
  reads = true;
  writes = false;
  creates = false;
  truncates = false;
  appends = false;
}
flags_of FileMode.for_write = record {
  reads = false;
  writes = true;
  creates = true;
  truncates = true;
  appends = false;
}
flags_of FileMode.for_append = record {
  reads = false;
  writes = true;
  creates = true;
  truncates = false;
  appends = true;
}
flags_of FileMode.for_read_write = record {
  reads = true;
  writes = true;
  creates = true;
  truncates = false;
  appends = false;
}

-- The `switch` of `justFileSeek`.
abbrev pub whence_of : SeekOrigin → Whence
whence_of SeekOrigin.seek_set = Whence.seek_set
whence_of SeekOrigin.seek_cur = Whence.seek_cur
whence_of SeekOrigin.seek_end = Whence.seek_end

abbrev pub closed : JustFile
closed = record { fd = none; is_open = false }

abbrev pub with_fd : ℕ → JustFile
with_fd n = record { fd = some n; is_open = true }

-- The descriptor of an open file.
abbrev pub open_fd : JustFile → Option ℕ
open_fd file = elim file.is_open [ true ↦ file.fd | false ↦ none ]

module _ (os : Os) where
  open os use {State, open_file, close_file, read_file, write_file, lseek, fstat_size, fsync}

  unfoldable pub file_open : Name → FileMode → State → Bool × JustFile × State
  file_open path mode s =
      let (fd, s') = open_file path (flags_of mode) s in
      elim fd [ none ↦ (false, closed, s') | some n ↦ (true, with_fd n, s') ]

  unfoldable pub file_close : JustFile → State → JustFile × State
  file_close file s = elim (open_fd file) [ none ↦ (file, s) | some fd ↦ (closed, close_file fd s) ]

  unfoldable pub file_read : JustFile → ℕ → State → Option (List ℕ) × State
  file_read file bytes_to_read s = elim (open_fd file) [
    | none ↦ (none, s)
    | some fd ↦ read_file fd bytes_to_read s
  ]

  unfoldable pub file_write : JustFile → List ℕ → State → Option ℕ × State
  file_write file bytes s = elim (open_fd file) [
    | none ↦ (none, s)
    | some fd ↦ write_file fd bytes s
  ]

  unfoldable pub file_seek : JustFile → ℤ → SeekOrigin → State → Bool × State
  file_seek file offset origin s = elim (open_fd file) [
    | none ↦ (false, s)
    | some fd ↦
        let (position, s') = lseek fd offset (whence_of origin) s in
        elim position [ none ↦ (false, s') | some at ↦ (true, s') ]
  ]

  unfoldable pub file_tell : JustFile → State → ℕ × State
  file_tell file s = elim (open_fd file) [
    | none ↦ (0, s)
    | some fd ↦
        let (position, s') = lseek fd (pos 0) Whence.seek_cur s in
        elim position [ none ↦ (0, s') | some at ↦ (at, s') ]
  ]

  unfoldable pub file_size : JustFile → State → ℕ
  file_size file s = elim (open_fd file) [
    | none ↦ 0
    | some fd ↦ elim (fstat_size fd s) [ none ↦ 0 | some size ↦ size ]
  ]

  unfoldable pub file_flush : JustFile → State → Bool × State
  file_flush file s = elim (open_fd file) [ none ↦ (false, s) | some fd ↦ fsync fd s ]

  -- The loop of `justFileWriteEntire` and of `justFileAppendEntire` and what follows it; `none` when
  -- the fuel is used up.
  unfoldable pub write_loop : ℕ → JustFile → List ℕ → ℕ → State → Option (Bool × State)
  write_loop zero file buffer total_written s = none
  write_loop (suc n) file buffer total_written s = elim (ltb total_written (length buffer)) [
    | false ↦ some (total_written == length buffer, (file_close file s).1)
    | true ↦
        let (chunk, s') = file_write file (drop total_written buffer) s in
        elim chunk [
          | none ↦ some (false, (file_close file s').1)
          | some zero ↦ some (false, (file_close file s').1)
          | some (suc k) ↦ write_loop n file buffer (add_size total_written (suc k)) s'
        ]
  ]

  -- The rest of the two, once the file has been opened or not.
  unfoldable pub write_opened : List ℕ → Bool × JustFile × State → Option (Bool × State)
  write_opened buffer (false, file, s) = some (false, s)
  write_opened buffer (true, file, s) = write_loop (suc (length buffer)) file buffer 0 s

  -- `justFileWriteEntire`
  unfoldable pub write_entire : Name → List ℕ → State → Option (Bool × State)
  write_entire path buffer s = write_opened buffer (file_open path FileMode.for_write s)

  -- `justFileAppendEntire`
  unfoldable pub append_entire : Name → List ℕ → State → Option (Bool × State)
  append_entire path [] s = some (true, s)
  append_entire path (b ∷ buffer) s =
      write_opened (b ∷ buffer) (file_open path FileMode.for_append s)

  module _ (m : Memory ℕ) where
    -- The loop of `justFileReadEntire`: the bytes read and the block; `none` when the fuel is used up.
    unfoldable pub read_loop : ℕ → JustFile → ℕ → List ℕ → ℕ → State → Option (ℕ × List ℕ × State)
    read_loop zero file size block total_read s = none
    read_loop (suc n) file size block total_read s = elim (ltb total_read size) [
      | false ↦ some (total_read, block, s)
      | true ↦
          let (chunk, s') = file_read file (sub_size size total_read) s in
          elim chunk [
            | none ↦ some (total_read, block, s')
            | some [] ↦ some (total_read, block, s')
            | some (b ∷ bs) ↦
                read_loop n file size (copy (length (b ∷ bs)) block total_read (b ∷ bs) 0)
                  (add_size total_read (length (b ∷ bs))) s'
          ]
    ]

    -- What `justFileReadEntire` does once the loop has ended.
    unfoldable pub finish_read :
        JustFile
        → m.Store
        → Option (ℕ × List ℕ × State)
        → Option (Option (ℕ × List ℕ) × State × m.Store)
    finish_read file store none = none
    finish_read file store (some (total_read, block, s)) =
        some (some (total_read, set block total_read 0), (file_close file s).1, store)

    -- What it does once the block has been asked for.
    unfoldable pub read_into :
        JustFile
        → ℕ
        → State
        → Option (List ℕ) × m.Store
        → Option (Option (ℕ × List ℕ) × State × m.Store)
    read_into file size s (none, store) = some (none, (file_close file s).1, store)
    read_into file size s (some block, store) =
        finish_read file store (read_loop (suc size) file size block 0 s)

    unfoldable pub read_opened :
        m.Store → Bool × JustFile × State → Option (Option (ℕ × List ℕ) × State × m.Store)
    read_opened store (false, file, s) = some (none, s, store)
    read_opened store (true, file, s) =
        let size = file_size file s in
        read_into file size s (m.tracked_malloc 1 (add_size size 1) store)

    -- `justFileReadEntire`: the length and the block, or NULL
    unfoldable pub read_entire :
        Name → State → m.Store → Option (Option (ℕ × List ℕ) × State × m.Store)
    read_entire path s store = read_opened store (file_open path FileMode.for_read s)
