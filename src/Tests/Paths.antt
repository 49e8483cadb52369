-- ===== src/Tests/Paths.antt =====
-- The path functions, the file functions and the directory functions on short paths.
use just_library.Base.{
  ℕ, ◌≤◌, ◌≡◌, ◌↔◌, refl, subst, Bool, true, false, ◌⊎◌, Option, none, some, List, [], ◌∷◌, ◌++◌,
  arith, length, if◌then◌else◌,
}
use just_library.Base.Text.{Name, same_name}
use just_library.Filesystem.Os.{Kind, or_empty}
use just_library.Filesystem.Path.{
  slash, is_empty, path_filename, path_extension, path_normalize, scan, skip_slashes, first_segment,
  after_segment, take_segment, go_up, push_segment, print_all, print_root, print, or_here,
  ends_with_slash,
}
use just_library.Filesystem.Path.Split.{split, split_from, IsName}
use just_library.Filesystem.Path.Resolve.{resolve, resolve-path_normalize, path_normalize_idem}
use just_library.Filesystem.Path.Names.{Joined, path_join-Joined}
use just_library.Filesystem.Path.Extension.{Extension, path_extension_iff}
use just_library.Filesystem.Files.{
  FileMode, flags_of, write_entire, append_entire, read_entire, write_opened, write_loop, file_open,
  file_write,
}
use just_library.Filesystem.Files.Writing.{Written}
use just_library.Filesystem.Files.Write.{write_entire-Written, append_entire-Written}
use just_library.Filesystem.Files.Read.{Ends}
use just_library.Filesystem.Files.Back.{read_entire-write_entire}
use just_library.Filesystem.Folders.{is_file, is_directory, mkdir, mkdir_recursive}
use just_library.Filesystem.Folders.Parents.{Reached}
use just_library.Filesystem.Folders.Outcome.{Stuck, parts}
use just_library.Filesystem.Folders.Make.{mkdir_recursive-Reached}
use just_library.Filesystem.Folders.Taken.{Stands, mkdir_recursive-file}
use just_library.Tests.DiskLaws.{disk-IsLawful}
use just_library.Tests.Disk.{Disk, disk, blank}
use just_library.Tests.Heap.{heap}

-- "/a/./b//../c"
abbrev winding : Name
winding = 47 ∷ 97 ∷ 47 ∷ 46 ∷ 47 ∷ 98 ∷ 47 ∷ 47 ∷ 46 ∷ 46 ∷ 47 ∷ 99 ∷ []

-- "/a/c"
abbrev straight : Name
straight = 47 ∷ 97 ∷ 47 ∷ 99 ∷ []

winding-normalize : path_normalize winding 16 ≡ some straight
unfolding path_normalize print_all print_root print scan skip_slashes after_segment take_segment
    same_name first_segment push_segment go_up ends_with_slash or_here
winding-normalize = refl

winding-names : length (split winding) ≡ 5
unfolding split split_from
winding-names = refl

resolve-path_normalize_example :
    resolve ((98 ∷ []) ∷ []) straight ≡ resolve ((98 ∷ []) ∷ []) winding
resolve-path_normalize_example =
    resolve-path_normalize winding 16 straight ((98 ∷ []) ∷ []) (omega (arith, winding-names))
      winding-normalize

path_normalize_idem_example : path_normalize straight 16 ≡ some straight
path_normalize_idem_example =
    path_normalize_idem winding 16 straight (omega arith) winding-normalize

b_txt-IsName : IsName (98 ∷ 46 ∷ 99 ∷ [])
b_txt-IsName = record { nonempty = refl; plain = (refl, (refl, (refl, tt))) }

path_join-Joined_example : (path : Name) × Joined (97 ∷ []) (98 ∷ 46 ∷ 99 ∷ []) 8 path
unfolding ends_with_slash
path_join-Joined_example =
    path_join-Joined (97 ∷ []) (98 ∷ 46 ∷ 99 ∷ []) 8 refl refl b_txt-IsName (omega arith)
      (omega arith)

path_extension_iff_example :
    (path_extension straight ≡ some (99 ∷ [])) ↔ Extension (path_filename straight) (99 ∷ [])
path_extension_iff_example = path_extension_iff straight (99 ∷ [])

abbrev bytes : List ℕ
bytes = 7 ∷ 8 ∷ 9 ∷ []

-- Three bytes in chunks of two and one.
abbrev after_write : Disk
after_write = record {
  held = λ other. if same_name other straight then some bytes else none;
  slot = none;
}

write_entire-Written_example :
    (ok : Bool) × (s' : Disk) × (write_entire disk straight bytes blank ≡ some (ok, s'))
    × (((ok ≡ false) × (disk.open_file straight (flags_of FileMode.for_write) blank ≡ (none, s')))
        ⊎ Written disk straight [] bytes ok s')
write_entire-Written_example =
    write_entire-Written disk disk-IsLawful straight bytes blank (omega arith)

append_entire-Written_example :
    (ok : Bool) × (s' : Disk) × (append_entire disk straight bytes after_write ≡ some (ok, s'))
    × (((bytes ≡ []) × (ok ≡ true) × (s' ≡ after_write))
        ⊎ (((ok ≡ false)
              × (disk.open_file straight (flags_of FileMode.for_append) after_write ≡ (none, s')))
            ⊎ Written disk straight (or_empty (disk.content straight after_write)) bytes ok s'))
append_entire-Written_example =
    append_entire-Written disk disk-IsLawful straight bytes after_write (omega arith)

abbrev the_state : Option (Bool × Disk) → Disk
the_state none = blank
the_state (some (ok, s)) = s

abbrev written : Disk
written = the_state (write_entire disk straight bytes blank)

written-ok : write_entire disk straight bytes blank ≡ some (true, written)
unfolding write_entire write_opened file_open write_loop file_write same_name
written-ok = refl

read_entire-write_entire_example :
    (result : Option (ℕ × List ℕ)) × (after : Disk) × (store' : ℕ) × (read_entire disk heap straight
        written 5
      ≡ some (result, after, store'))
    × Ends disk heap straight bytes written 5 result after
read_entire-write_entire_example =
    read_entire-write_entire disk disk-IsLawful heap straight bytes blank written 5 (omega arith)
      written-ok

mkdir_recursive-Reached_example :
    (ok : Bool) × (s' : Disk) × (mkdir_recursive disk straight blank ≡ some (ok, s'))
    × (((ok ≡ true) × Reached disk straight s')
        ⊎ (((ok ≡ false) × (1024 ≤ length straight) × (s' ≡ blank))
            ⊎ ((ok ≡ false) × Stuck disk (parts straight) blank s')))
mkdir_recursive-Reached_example = mkdir_recursive-Reached disk disk-IsLawful straight blank refl

-- "d" is a directory, and everything else is a file.
abbrev with_file : Disk
with_file = record {
  held = λ other. if same_name other (100 ∷ []) then some [] else some (7 ∷ []);
  slot = none;
}

-- "d/f"
abbrev in_folder : Name
in_folder = 100 ∷ 47 ∷ 102 ∷ []

parent-Stands :
    (q r : Name) → in_folder ≡ q ++ slash ∷ r → is_empty q ≡ false → Stands disk q with_file
unfolding same_name
parent-Stands [] r e n = absurd (cc n)
parent-Stands (c ∷ []) r e n =
    let d : 100 ≡ c = cc e in
    subst (λ x. Stands disk (x ∷ []) with_file) d
      (record { found = record { kind = Kind.directory; size = 0 }; stat-found = refl })
parent-Stands (c ∷ c' ∷ []) r e n = let f : ◌≡◌ {A = ℕ} 102 47 = cc e in absurd (omega (arith, f))
parent-Stands (c ∷ c' ∷ c'' ∷ []) r e n = absurd (cc e)
parent-Stands (c ∷ c' ∷ c'' ∷ d ∷ q) r e n = absurd (cc e)

in_folder-file : is_file disk in_folder with_file ≡ true
unfolding same_name
in_folder-file = refl

mkdir_recursive-file_example :
    ((mkdir disk in_folder with_file).0 ≡ false)
    × ((s' : Disk) × (mkdir_recursive disk in_folder with_file ≡ some (true, s'))
        × (is_file disk in_folder s' ≡ true)
        × (is_directory disk in_folder s' ≡ false))
mkdir_recursive-file_example =
    mkdir_recursive-file disk disk-IsLawful in_folder with_file refl (omega arith) in_folder-file
      parent-Stands
