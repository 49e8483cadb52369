-- ===== src/Filesystem/Path/Names.antt =====
-- Joining a directory and a name, and taking the two apart again.
use just_library.Base.{
  ℕ, suc, ◌+◌, ◌^◌, ◌≤◌, ◌<◌, ◌≡◌, refl, sym, ap, true, false, inl, inr, [], ◌∷◌, ◌++◌, length,
  length-append, take, take-append, drop, arith, leb, ltb, ◌==◌, Bool-cases, none, some, add_size,
  lt→ltb, ==_iff, Option-cases,
}
use just_library.Base.Text.{Name}
use just_library.Filesystem.Path.{
  slash, last_index, path_filename, ends_with_slash, path_join, path_parent, parent_at, is_empty,
}
use just_library.Filesystem.Path.Split.{Lacks, IsName}

last_index-Lacks : (c : ℕ) (n : Name) → Lacks c n → last_index c n ≡ none
unfolding last_index
last_index-Lacks c [] h = refl
last_index-Lacks c (x ∷ xs) (e, h) = rw (last_index-Lacks c xs h, e) refl

-- The last `c` is the one with no other behind it.
pub last_index-append :
    (c : ℕ) (front back : Name)
    → Lacks c back
    → last_index c (front ++ c ∷ back) ≡ some (length front)
unfolding last_index
last_index-append c [] back h =
    let e : (c == c) ≡ true = ground arith in rw (last_index-Lacks c back h, e) refl
last_index-append c (x ∷ front) back h = rw (last_index-append c front back h) refl

Lacks-last_index : (c : ℕ) (n : Name) → last_index c n ≡ none → Lacks c n
unfolding last_index
Lacks-last_index c [] e = tt
Lacks-last_index c (x ∷ xs) e = elim (Option-cases (last_index c xs)) [
  | inl f ↦ elim (Bool-cases (x == c)) [
    | inl g ↦ let k : some 0 ≡ none = rw (last_index, f, g) at e in absurd (cc k)
    | inr g ↦ (g, Lacks-last_index c xs f)
  ]
  | inr (i, f) ↦ let k : some (suc i) ≡ none = rw (last_index, f) at e in absurd (cc k)
]

-- Where the last `c` is found, it parts the text.
pub last_index-parts :
    (c : ℕ) (n : Name) (i : ℕ)
    → last_index c n ≡ some i
    → (n ≡ take i n ++ c ∷ drop (suc i) n) × Lacks c (drop (suc i) n) × (length (take i n) ≡ i)
unfolding last_index
last_index-parts c [] i e = absurd (cc e)
last_index-parts c (x ∷ xs) i e = elim (Option-cases (last_index c xs)) [
  | inl f ↦ elim (Bool-cases (x == c)) [
    | inl g ↦
        let k : some 0 ≡ some i = rw (last_index, f, g) at e in
        let m : 0 ≡ i = cc k in
        let same : x ≡ c = (==_iff x c).0 g in
        rw (sym m) (ap (λ y. y ∷ xs) same, Lacks-last_index c xs f, refl)
    | inr g ↦ let k : none ≡ some i = rw (last_index, f, g) at e in absurd (cc k)
  ]
  | inr (j, f) ↦
      let k : some (suc j) ≡ some i = rw (last_index, f) at e in
      let m : suc j ≡ i = cc k in
      let (p, q, r) = last_index-parts c xs j f in rw (sym m) (ap (λ t. x ∷ t) p, q, ap suc r)
]

pub drop-append : (xs : Name) (c : ℕ) (ys : Name) → drop (suc (length xs)) (xs ++ c ∷ ys) ≡ ys
drop-append [] c ys = refl
drop-append (x ∷ xs) c ys = drop-append xs c ys

-- What a directory that does not end in '/' is joined to a name with.
path_join-eq :
    (dir n : Name) (size : ℕ)
    → is_empty dir ≡ false
    → ends_with_slash dir ≡ false
    → IsName n
    → length dir + 1 + length n < size
    → size ≤ 2 ^ 31
    → path_join dir n size ≡ some (dir ++ slash ∷ n)
unfolding path_join
path_join-eq dir [] size d e is l b = absurd (cc (is.nonempty))
path_join-eq dir (c ∷ cs) size d e is l b =
    let z : (size == 0) ≡ false = ground arith in
    let f : (c == slash) ≡ false = is.plain.0 in
    let s : length (dir ++ slash ∷ c ∷ cs) ≡ length dir + 1 + length (c ∷ cs) =
      omega (arith, length-append dir (slash ∷ c ∷ cs)) in
    let t : add_size (add_size (length dir) 1) (length (c ∷ cs))
        ≡ length dir + 1 + length (c ∷ cs) =
      omega arith in
    let u : leb size (length dir + 1 + length (c ∷ cs)) ≡ false = ground arith in
    let v : ltb (length dir + 1 + length (c ∷ cs)) (2 ^ 31) ≡ true = ground arith in
    simp (z, d, e, f, t, u, s, v, lt→ltb (length dir + 1 + length (c ∷ cs)) size l) refl

-- A file in a directory.
pub record Joined (dir name : Name) (size : ℕ) (path : Name) : Type 0 where
  pub joined : path_join dir name size ≡ some path
  pub filename : path_filename path ≡ name
  pub parent : path_parent path size ≡ some dir

-- `justPathJoin` of a directory that is not empty and does not end in '/' and a name that is not
-- empty and has no '/', into a buffer that has room for them and is not above INT_MAX: it succeeds,
-- and `justPathFilename` and `justPathParent` of the result are the name and the directory.
pub path_join-Joined :
    (dir name : Name) (size : ℕ)
    → is_empty dir ≡ false
    → ends_with_slash dir ≡ false
    → IsName name
    → length dir + 1 + length name < size
    → size ≤ 2 ^ 31
    → (path : Name) × Joined dir name size path
unfolding path_filename path_parent parent_at last_index
path_join-Joined [] name size d e is l b = absurd (cc d)
path_join-Joined (c ∷ cs) name size d e is l b =
    let dir = c ∷ cs in
    let at = last_index-append slash (c ∷ cs) name is.plain in
    let z : (size == 0) ≡ false = ground arith in
    let room : leb size (suc (length cs)) ≡ false = ground arith in
    (
      dir ++ slash ∷ name,
      record {
        joined = path_join-eq (c ∷ cs) name size d e is l b;
        filename = rw at (drop-append (c ∷ cs) slash name);
        parent = rw (z, at, room) (ap some (take-append (c ∷ cs) (slash ∷ name)));
      },
    )
