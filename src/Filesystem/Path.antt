-- ===== src/Filesystem/Path.antt =====
-- The path functions of src/system/filesystem.c. An output buffer is the string that the call leaves
-- in it, and `none` is the result `false`; a pointer into the path is the rest of the path from there.
pub mod Split
pub mod Print
pub mod Walk
pub mod Replay
pub mod Normal
pub mod Resolve
pub mod Names
pub mod Extension
use just_library.Base.{
  ℕ, zero, suc, ◌+◌, ◌-◌, ◌^◌, Bool, true, false, not, ◌&&◌, ◌||◌, Option, none, some, List, [],
  ◌∷◌, ◌++◌, length, take, drop, get_elem?, add_size, if◌then◌else◌, ◌==◌, ltb, leb,
}
use just_library.Base.Text.{Name, same_name}
use mathlib.Core.List.{reverse}

-- '/'
abbrev pub slash : ℕ
slash = 47

-- '.'
abbrev pub dot : ℕ
dot = 46

-- `strrchr(path, c)`: where the last `c` stands
unfoldable pub last_index : ℕ → Name → Option ℕ
last_index c [] = none
last_index c (x ∷ xs) = elim (last_index c xs) [
  | some i ↦ some (suc i)
  | none ↦ if x == c then some 0 else none
]

-- `justPathFilename` of a path that is not NULL
unfoldable pub path_filename : Name → Name
path_filename path = elim (last_index slash path) [ some i ↦ drop (suc i) path | none ↦ path ]

-- `justPathExtension`, from the filename on
unfoldable pub extension_of : Name → Option ℕ → Option Name
extension_of filename none = none
extension_of filename (some zero) = none
extension_of filename (some (suc i)) = elim (drop (suc (suc i)) filename) [
  | [] ↦ none
  | c ∷ cs ↦ some (c ∷ cs)
]

-- `justPathExtension` of a path that is not NULL
unfoldable pub path_extension : Name → Option Name
path_extension path =
    let filename = path_filename path in extension_of filename (last_index dot filename)

-- `temp[0] == '/'`, `PART_2[0] == '/'`
abbrev pub starts_with_slash : Name → Bool
starts_with_slash [] = false
starts_with_slash (c ∷ cs) = c == slash

-- `len > 0 && path[len - 1] == '/'`
unfoldable pub ends_with_slash : Name → Bool
ends_with_slash [] = false
ends_with_slash (c ∷ []) = c == slash
ends_with_slash (c ∷ d ∷ cs) = ends_with_slash (d ∷ cs)

abbrev pub is_empty {ℓ} : {A : Type ℓ} → List A → Bool
is_empty [] = true
is_empty (c ∷ cs) = false

-- `justPathJoin`: `snprintf` fails on a text of more than INT_MAX characters
unfoldable pub path_join : Name → Name → ℕ → Option Name
path_join part_1 part_2 buffer_size =
    if buffer_size == 0
    then none
    else let needs_slash =
        (not (is_empty part_1) && not (ends_with_slash part_1)) && not (starts_with_slash part_2) in
      let total_len =
        add_size (add_size (length part_1) (if needs_slash then 1 else 0)) (length part_2) in
      let text = if needs_slash then part_1 ++ slash ∷ part_2 else part_1 ++ part_2 in
      if leb buffer_size total_len
      then none
      else if ltb (length text) (2 ^ 31) && ltb (length text) buffer_size
      then some text
      else none

-- `justPathParent` once the last '/' has been looked for
unfoldable pub parent_at : Name → ℕ → Option ℕ → Option Name
parent_at path buffer_size none = if ltb buffer_size 2 then none else some (dot ∷ [])
parent_at path buffer_size (some zero) = if ltb buffer_size 2 then none else some (slash ∷ [])
parent_at path buffer_size (some (suc i)) =
    if leb buffer_size (suc i) then none else some (take (suc i) path)

unfoldable pub path_parent : Name → ℕ → Option Name
path_parent path buffer_size =
    if buffer_size == 0 then none else parent_at path buffer_size (last_index slash path)

-- `while (*cursor == '/') cursor++;`
unfoldable pub skip_slashes : Name → Name
skip_slashes [] = []
skip_slashes (c ∷ cs) = if c == slash then skip_slashes cs else c ∷ cs

-- What `start` points at once the '/' behind it is a terminator.
unfoldable pub first_segment : Name → Name
first_segment [] = []
first_segment (c ∷ cs) = if c == slash then [] else c ∷ first_segment cs

-- The cursor behind the segment and its '/'.
unfoldable pub after_segment : Name → Name
after_segment [] = []
after_segment (c ∷ cs) = if c == slash then cs else after_segment cs

-- "." and ".."
abbrev pub here : Name
here = dot ∷ []

abbrev pub above : Name
above = dot ∷ dot ∷ []

-- `if (segCount < 64) segments[segCount++] = start;` The array stands with its top in front.
unfoldable pub push_segment : Name → List Name → List Name
push_segment start segments = if ltb (length segments) 64 then start ∷ segments else segments

-- The ".." of the loop of `justPathNormalize`.
unfoldable pub go_up : Bool → List Name → List Name
go_up is_absolute [] = if is_absolute then [] else push_segment above []
go_up is_absolute (top ∷ rest) =
    if not (same_name top above)
    then rest
    else if is_absolute
    then top ∷ rest
    else push_segment above (top ∷ rest)

-- The body of the loop, from the comparison with "." on.
unfoldable pub take_segment : Bool → List Name → Name → List Name
take_segment is_absolute segments start =
    if same_name start here
    then segments
    else if same_name start above
    then go_up is_absolute segments
    else push_segment start segments

-- `while (*cursor)`, with the characters of the path as fuel.
unfoldable pub scan : ℕ → Bool → Name → List Name → List Name
scan zero is_absolute cursor segments = segments
scan (suc n) is_absolute cursor segments = elim (skip_slashes cursor) [
  | [] ↦ segments
  | c ∷ cs ↦
      scan n is_absolute (after_segment (c ∷ cs))
        (take_segment is_absolute segments (first_segment (c ∷ cs)))
]

-- The loop that writes the segments, in their order.
unfoldable pub print : ℕ → List Name → Name → Option Name
print buffer_size [] out = some out
print buffer_size (segment ∷ segments) out =
    let needs_slash = not (is_empty out) && not (ends_with_slash out) in
    let text = if needs_slash then out ++ slash ∷ segment else out ++ segment in
    let rest = print buffer_size segments text in
    if leb buffer_size (length out + (if needs_slash then 1 else 0) + length segment)
    then none
    else rest

-- `if (outPos == 0)`
unfoldable pub or_here : ℕ → Name → Option Name
or_here buffer_size [] = if ltb buffer_size 2 then none else some here
or_here buffer_size (c ∷ cs) = some (c ∷ cs)

-- The first '/' of an absolute path.
unfoldable pub print_root : Bool → ℕ → Option Name
print_root false buffer_size = some []
print_root true buffer_size = if leb buffer_size 1 then none else some (slash ∷ [])

-- What `justPathNormalize` does once the segments are known.
unfoldable pub print_all : Bool → List Name → ℕ → Option Name
print_all is_absolute segments buffer_size = elim (print_root is_absolute buffer_size) [
  | none ↦ none
  | some root ↦ elim (print buffer_size (reverse segments) root) [
    | none ↦ none
    | some out ↦ or_here buffer_size out
  ]
]

unfoldable pub path_normalize : Name → ℕ → Option Name
path_normalize path buffer_size =
    if buffer_size == 0
    then none
    else if leb 1024 (length path)
    then none
    else let is_absolute = starts_with_slash path in
      print_all is_absolute (scan (length path) is_absolute path []) buffer_size
