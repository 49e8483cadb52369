-- ===== src/Filesystem/Os.antt =====
-- The calls of the operating system that src/system/filesystem.c makes, with what POSIX says of them
-- while no other process changes the files. A file descriptor that is not negative is a number.
use just_library.Base.{
  ℕ, ◌+◌, ◌≤◌, ◌<◌, ◌≡◌, ◌⊎◌, Bool, true, false, Option, none, some, List, [], ◌++◌, length, take,
  drop,
}
use just_library.Base.Int.{ℤ}
use just_library.Base.Text.{Name}

-- The flags of `open`: O_RDONLY, O_WRONLY or O_RDWR, O_CREAT, O_TRUNC, O_APPEND
pub record Flags : Type 0 where
  pub reads : Bool
  pub writes : Bool
  pub creates : Bool
  pub truncates : Bool
  pub appends : Bool

-- SEEK_SET, SEEK_CUR, SEEK_END
pub data Whence : Type 0 where
  seek_set seek_cur seek_end : Whence

-- S_ISREG, S_ISDIR, and the rest of `st_mode`
pub data Kind : Type 0 where
  regular directory other : Kind

pub record Stat : Type 0 where
  pub kind : Kind
  pub size : ℕ

-- What `mkdir` returns: 0, -1 with EEXIST, -1 with another `errno`
pub data Made : Type 0 where
  made already failed : Made

-- An open file: its path, where the next read or write stands, and whether writes go to the end.
pub record Opened : Type 0 where
  pub path : Name
  pub position : ℕ
  pub appends : Bool

pub record Os : Type 1 where
  pub State : Type 0
  pub open_file : Name → Flags → State → Option ℕ × State
  pub close_file : ℕ → State → State
  -- the bytes that were read
  pub read_file : ℕ → ℕ → State → Option (List ℕ) × State
  -- the number of bytes that were written
  pub write_file : ℕ → List ℕ → State → Option ℕ × State
  pub lseek : ℕ → ℤ → Whence → State → Option ℕ × State
  pub fstat_size : ℕ → State → Option ℕ
  pub fsync : ℕ → State → Bool × State
  pub access : Name → State → Bool
  pub stat : Name → State → Option Stat
  pub make_directory : Name → State → Made × State
  pub unlink : Name → State → Bool × State
  pub rename : Name → Name → State → Bool × State
  -- the names that `readdir` gives between `opendir` and `closedir`
  pub entries : Name → State → Option (List Name)
  -- what there is to see of a state: the open files, what a path holds, and whether there is an entry
  -- of a name, be it a symbolic link that leads nowhere; slashes at the end of the name do not count
  pub opened : ℕ → State → Option Opened
  pub content : Name → State → Option (List ℕ)
  pub present : Name → State → Bool

-- What a file held, if it was there.
abbrev pub or_empty : Option (List ℕ) → List ℕ
or_empty none = []
or_empty (some bytes) = bytes

abbrev pub moved : Opened → ℕ → Opened
moved o n = record { path = o.path; position = n; appends = o.appends }

-- Where a write stands.
abbrev pub write_position : Opened → List ℕ → ℕ
write_position o bytes = elim o.appends [ true ↦ length bytes | false ↦ o.position ]

-- The bytes from a place on are replaced.
abbrev pub overwrite : List ℕ → ℕ → List ℕ → List ℕ
overwrite old at bytes = take at old ++ bytes ++ drop (at + length bytes) old

pub record IsLawful (os : Os) : Type 0 where
  -- an opened file stands at its start, and its content is that of the path, emptied by O_TRUNC
  pub opened-open :
      (path : Name) (f : Flags) (s s' : os.State) (fd : ℕ)
      → os.open_file path f s ≡ (some fd, s')
      → os.opened fd s' ≡ some (record { path = path; position = 0; appends = f.appends })
  pub content-open :
      (path : Name) (f : Flags) (s s' : os.State) (fd : ℕ)
      → os.open_file path f s ≡ (some fd, s')
      → os.content path s'
        ≡ some (elim f.truncates [ true ↦ [] | false ↦ or_empty (os.content path s) ])
  pub content-close :
      (fd : ℕ) (path : Name) (s : os.State)
      → os.content path (os.close_file fd s) ≡ os.content path s
  -- a write that fails changes nothing that there is to see
  pub write-refused :
      (fd : ℕ) (bytes : List ℕ) (path : Name) (s s' : os.State)
      → os.write_file fd bytes s ≡ (none, s')
      → os.content path s' ≡ os.content path s
  -- one that does not takes the first bytes, perhaps not all of them
  pub write-some :
      (fd n : ℕ) (bytes old : List ℕ) (o : Opened) (s s' : os.State)
      → os.opened fd s ≡ some o
      → os.content o.path s ≡ some old
      → write_position o old ≤ length old
      → os.write_file fd bytes s ≡ (some n, s')
      → (n ≤ length bytes)
        × (os.content o.path s' ≡ some (overwrite old (write_position o old) (take n bytes)))
        × (os.opened fd s' ≡ some (moved o (write_position o old + n)))
  pub read-refused :
      (fd wanted : ℕ) (path : Name) (s s' : os.State)
      → os.read_file fd wanted s ≡ (none, s')
      → os.content path s' ≡ os.content path s
  -- a read gives bytes from the position on, and none only at the end
  pub read-some :
      (fd wanted : ℕ) (bytes old : List ℕ) (o : Opened) (s s' : os.State)
      → os.opened fd s ≡ some o
      → os.content o.path s ≡ some old
      → os.read_file fd wanted s ≡ (some bytes, s')
      → (length bytes ≤ wanted)
        × (bytes ≡ take (length bytes) (drop o.position old))
        × ((0 < length bytes) ⊎ (wanted ≡ 0) ⊎ (length old ≤ o.position))
        × (os.content o.path s' ≡ some old)
        × (os.opened fd s' ≡ some (moved o (o.position + length bytes)))
  pub fstat-length :
      (fd n : ℕ) (old : List ℕ) (o : Opened) (s : os.State)
      → os.opened fd s ≡ some o
      → os.content o.path s ≡ some old
      → os.fstat_size fd s ≡ some n
      → n ≡ length old
  -- there is an entry of what `mkdir` makes, and one where it fails with EEXIST, and it removes none
  pub present-made :
      (path : Name) (s s' : os.State)
      → os.make_directory path s ≡ (Made.made, s')
      → os.present path s' ≡ true
  pub present-already :
      (path : Name) (s s' : os.State)
      → os.make_directory path s ≡ (Made.already, s')
      → os.present path s' ≡ true
  pub present-kept :
      (path other : Name) (s s' : os.State) (r : Made)
      → os.make_directory path s ≡ (r, s')
      → os.present other s ≡ true
      → os.present other s' ≡ true
  -- where `stat` finds a file of any kind, `mkdir` fails with EEXIST and changes none
  pub already-stat :
      (path : Name) (s : os.State) (st : Stat)
      → os.stat path s ≡ some st
      → ((os.make_directory path s).0 ≡ Made.already)
        × ((other : Name) → os.stat other (os.make_directory path s).1 ≡ os.stat other s)
