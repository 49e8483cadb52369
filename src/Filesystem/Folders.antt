-- ===== src/Filesystem/Folders.antt =====
-- The checks and the operations on names and directories of src/system/filesystem.c. The callback of
-- `justListDir` changes its user data and no file.
pub mod Parents
pub mod Outcome
pub mod Make
pub mod Taken
use just_library.Base.{
  ℕ, Bool, true, false, ◌||◌, Option, none, some, List, [], ◌∷◌, ◌++◌, length, is_some, ◌==◌, leb,
}
use just_library.Base.Text.{Name, same_name}
use just_library.Filesystem.Os.{Os, Kind, Stat, Made}
use just_library.Filesystem.Path.{slash, here, above, path_join}

abbrev pub is_regular : Option Stat → Bool
is_regular none = false
is_regular (some st) = elim st.kind [ Kind.regular ↦ true | _ ↦ false ]

abbrev pub is_folder : Option Stat → Bool
is_folder none = false
is_folder (some st) = elim st.kind [ Kind.directory ↦ true | _ ↦ false ]

module _ (os : Os) where
  open os use {State, access, stat, make_directory, unlink, rename, entries}

  -- `justFileExists`
  abbrev pub file_exists : Name → State → Bool
  file_exists path s = access path s

  -- `justIsFile`
  abbrev pub is_file : Name → State → Bool
  is_file path s = is_regular (stat path s)

  -- `justIsDirectory`
  abbrev pub is_directory : Name → State → Bool
  is_directory path s = is_folder (stat path s)

  -- `justGetFileSize`
  abbrev pub get_file_size : Name → State → ℕ
  get_file_size path s = elim (stat path s) [ none ↦ 0 | some st ↦ st.size ]

  -- `justMkdir`
  unfoldable pub mkdir : Name → State → Bool × State
  mkdir path s =
      let (r, s') = make_directory path s in
      elim r [
        | Made.made ↦ (true, s')
        | Made.already ↦ (is_directory path s', s')
        | Made.failed ↦ (false, s')
      ]

  -- `mkdir(temp, 0755) == 0 || errno == EEXIST`
  abbrev pub there : Made → Bool
  there Made.made = true
  there Made.already = true
  there Made.failed = false

  -- The loop of `justMkdirRecursive` and what follows it; `front` stands before the cursor.
  unfoldable pub make_parents : Name → Name → State → Bool × State
  make_parents front [] s = let (r, s') = make_directory front s in (there r, s')
  make_parents front (c ∷ cs) s = elim (c == slash) [
    | false ↦ make_parents (front ++ c ∷ []) cs s
    | true ↦
        let (r, s') = make_directory front s in
        elim (there r) [ false ↦ (false, s') | true ↦ make_parents (front ++ c ∷ []) cs s' ]
  ]

  -- `justMkdirRecursive`, which is not defined for an empty path.
  unfoldable pub mkdir_recursive : Name → State → Option (Bool × State)
  mkdir_recursive [] s = none
  mkdir_recursive (c ∷ cs) s = elim (leb 1024 (length (c ∷ cs))) [
    | true ↦ some (false, s)
    | false ↦ some (make_parents (c ∷ []) cs s)
  ]

  -- `justFileRemove`
  abbrev pub file_remove : Name → State → Bool × State
  file_remove path s = unlink path s

  -- `justFileRename`
  abbrev pub file_rename : Name → Name → State → Bool × State
  file_rename old_path new_path s = rename old_path new_path s

  -- `isDir` of an entry of `justListDir`
  unfoldable pub entry_is_directory : Name → Name → State → Bool
  entry_is_directory path name s = elim (path_join path name 1024) [
    | none ↦ false
    | some sub_path ↦ is_directory sub_path s
  ]

  module _ {U : Type 0} (callback : Name → Bool → U → U) where
    -- The loop of `justListDir`.
    unfoldable pub visit : Name → List Name → State → U → U
    visit path [] s user_data = user_data
    visit path (name ∷ names) s user_data = elim (same_name name here || same_name name above) [
      | true ↦ visit path names s user_data
      | false ↦ visit path names s (callback name (entry_is_directory path name s) user_data)
    ]

    -- `justListDir`
    unfoldable pub list_dir : Name → State → U → Option U
    list_dir path s user_data = elim (entries path s) [
      | none ↦ none
      | some names ↦ some (visit path names s user_data)
    ]
