-- ===== src/Tests/Disk.antt =====
-- An operating system for the tests: one open file at a time, writes of at most two bytes, reads of
-- at most one, a directory is a name with no content.
use just_library.Base.{
  ℕ, zero, suc, ◌+◌, true, false, Option, none, some, List, [], ◌∷◌, length, take, drop,
  if◌then◌else◌, is_some,
}
use just_library.Base.Text.{Name, same_name}
use just_library.Filesystem.Os.{
  Os, Opened, Made, Kind, Stat, moved, overwrite, write_position, or_empty,
}

pub record Disk : Type 0 where
  pub held : Name → Option (List ℕ)
  pub slot : Option Opened

abbrev pub with_held : Disk → Name → List ℕ → Option Opened → Disk
with_held d path bytes slot = record {
  held = λ other. if same_name other path then some bytes else d.held other;
  slot = slot;
}

abbrev pub at_most : ℕ → List ℕ → ℕ
at_most zero bytes = 0
at_most (suc n) [] = 0
at_most (suc n) (b ∷ bs) = suc (at_most n bs)

abbrev pub write_held : List ℕ → Disk → Opened → Option (List ℕ) → Option ℕ × Disk
write_held bytes d o none = (none, d)
write_held bytes d o (some old) =
    let n = at_most 2 bytes in
    let at = write_position o old in
    (some n, with_held d o.path (overwrite old at (take n bytes)) (some (moved o (at + n))))

abbrev pub write_slot : List ℕ → Disk → Option Opened → Option ℕ × Disk
write_slot bytes d none = (none, d)
write_slot bytes d (some o) = write_held bytes d o (d.held o.path)

-- at most one byte
abbrev pub few : ℕ → List ℕ → List ℕ
few zero bytes = []
few (suc n) [] = []
few (suc n) (b ∷ bs) = b ∷ []

abbrev pub read_held : ℕ → Disk → Opened → Option (List ℕ) → Option (List ℕ) × Disk
read_held wanted d o none = (none, d)
read_held wanted d o (some old) =
    let bytes = few wanted (drop o.position old) in
    (some bytes, record { held = d.held; slot = some (moved o (o.position + length bytes)) })

abbrev pub read_slot : ℕ → Disk → Option Opened → Option (List ℕ) × Disk
read_slot wanted d none = (none, d)
read_slot wanted d (some o) = read_held wanted d o (d.held o.path)

abbrev pub size_held : Option (List ℕ) → Option ℕ
size_held none = none
size_held (some old) = some (length old)

abbrev pub size_slot : Disk → Option Opened → Option ℕ
size_slot d none = none
size_slot d (some o) = size_held (d.held o.path)

abbrev pub make_held : Disk → Name → Option (List ℕ) → Made × Disk
make_held d path none = (Made.made, with_held d path [] d.slot)
make_held d path (some bytes) = (Made.already, d)

abbrev pub stat_held : Option (List ℕ) → Option Stat
stat_held none = none
stat_held (some []) = some (record { kind = Kind.directory; size = 0 })
stat_held (some (b ∷ bs)) = some (record { kind = Kind.regular; size = length (b ∷ bs) })

abbrev pub disk : Os
disk = record {
  State = Disk;
  open_file = λ path f d. (
    some 3,
    with_held d path (elim f.truncates [ true ↦ [] | false ↦ or_empty (d.held path) ])
        (some (record { path = path; position = 0; appends = f.appends })),
  );
  close_file = λ fd d. record { held = d.held; slot = none };
  read_file = λ fd wanted d. read_slot wanted d d.slot;
  write_file = λ fd bytes d. write_slot bytes d d.slot;
  lseek = λ fd offset whence d. (none, d);
  fstat_size = λ fd d. size_slot d d.slot;
  fsync = λ fd d. (true, d);
  access = λ path d. is_some (d.held path);
  stat = λ path d. stat_held (d.held path);
  make_directory = λ path d. make_held d path (d.held path);
  unlink = λ path d. (false, d);
  rename = λ old new d. (false, d);
  entries = λ path d. none;
  opened = λ fd d. d.slot;
  content = λ path d. d.held path;
  present = λ path d. is_some (d.held path);
}

abbrev pub blank : Disk
blank = record { held = λ path. none; slot = none }
