-- ===== src/Filesystem/Files/ReadBack.antt =====
-- What the loop that reads into a block keeps, and what it leaves.
use just_library.Base.{
  ℕ, ◌+◌, ◌-◌, ◌≤◌, ◌<◌, ◌≡◌, subst, ◌∙◌, ◌⊎◌, inl, inr, none, some, List, length, get_elem?, set,
  get_elem?-set_self, get_elem?-set_ne, arith,
}
use just_library.Base.Text.{Name}
use just_library.Filesystem.Os.{Os, Opened}
use just_library.Filesystem.Files.{FileMode, flags_of}
use just_library.Filesystem.Files.Block.{Filled}

module _ (os : Os) where
  -- The reads of the loop that gave something, from the state in which the file was opened: how many
  -- bytes they gave, and the state that they lead to.
  pub data Reads (fd size : ℕ) (opened : os.State) : ℕ → os.State → Type 0 where
    not_yet : Reads fd size opened 0 opened
    further :
        {total : ℕ} {s s' : os.State} (bytes : List ℕ)
        → Reads fd size opened total s
        → os.read_file fd (size - total) s ≡ (some bytes, s')
        → Reads fd size opened (total + length bytes) s'

  -- The read that comes next, after `total` bytes, is refused.
  abbrev pub Refuses : ℕ → ℕ → os.State → ℕ → Type 0
  Refuses fd size opened total =
      (s : os.State) × (s' : os.State) × Reads fd size opened total s
      × (os.read_file fd (size - total) s ≡ (none, s'))

  -- The file and the block between two rounds.
  pub record Reading (fd : ℕ) (path : Name) (content : List ℕ) (size total : ℕ) (block : List ℕ)
      (opened s : os.State) : Type 0 where
    pub file : Opened
    pub at_file : os.opened fd s ≡ some file
    pub same_path : file.path ≡ path
    pub place : file.position ≡ total
    pub unchanged : os.content path s ≡ some content
    pub room : length block ≡ size + 1
    pub size-le : size ≤ length content
    pub total-size : total ≤ size
    pub filled : Filled content total block
    pub reads : Reads fd size opened total s

  -- What the loop leaves.
  pub record Stopped (fd : ℕ) (path : Name) (content : List ℕ) (size total : ℕ) (block : List ℕ)
      (opened s : os.State) : Type 0 where
    pub kept : os.content path s ≡ some content
    pub total_room : total < length block
    pub part : Filled content total block
    pub reason : (total ≡ size) ⊎ Refuses fd size opened total

  -- What is read back of a file with this content, opened in the state `before` and closed in the
  -- state `after`.
  pub record ReadBack (path : Name) (content : List ℕ) (total : ℕ) (block : List ℕ)
      (before after : os.State) : Type 0 where
    pub fd : ℕ
    pub opened : os.State
    pub opening : os.open_file path (flags_of FileMode.for_read) before ≡ (some fd, opened)
    pub kept : os.content path after ≡ some content
    pub part : Filled content total block
    pub terminated : get_elem? block total ≡ some 0
    -- the whole file, or `fstat` on the opened file was refused and nothing was asked for, or the read
    -- after these bytes was refused
    pub complete :
        (total ≡ length content)
        ⊎ ((total ≡ 0) × (os.fstat_size fd opened ≡ none))
        ⊎ Refuses fd (length content) opened total

  -- The size that `fstat` gives, or 0 if it is refused.
  abbrev pub Measured : ℕ → List ℕ → os.State → ℕ → Type 0
  Measured fd content opened size =
      (size ≡ length content) ⊎ ((size ≡ 0) × (os.fstat_size fd opened ≡ none))

  pub Stopped-ReadBack :
      (fd : ℕ) (path : Name) (content : List ℕ) (size total : ℕ) (block : List ℕ)
      (before opened s s' : os.State)
      → os.open_file path (flags_of FileMode.for_read) before ≡ (some fd, opened)
      → os.content path s' ≡ os.content path s
      → Measured fd content opened size
      → total ≤ size
      → Stopped fd path content size total block opened s
      → ReadBack path content total (set block total 0) before s'
  Stopped-ReadBack fd path content size total block before opened s s' e same measured most w =
      record {
        fd = fd;
        opened = opened;
        opening = e;
        kept = same ∙ w.kept;
        part = record {
          total-le = w.part.total-le;
          bytes = λ k h. get_elem?-set_ne block total k 0 (λ e. omega arith) ∙ w.part.bytes k h;
        };
        terminated = get_elem?-set_self block total 0 w.total_room;
        complete = elim measured [
          | inr (none_asked, refused) ↦ inr (inl (omega arith, refused))
          | inl whole ↦ elim w.reason [
            | inl all ↦ inl (all ∙ whole)
            | inr refused ↦ inr (inr (subst (λ n. Refuses fd n opened total) whole refused))
          ]
        ];
      }
