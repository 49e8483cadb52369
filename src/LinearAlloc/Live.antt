-- ===== src/LinearAlloc/Live.antt =====
-- The blocks that are in use, whatever is allocated, rewound and reset.
use just_library.Base.{
  ℕ, ◌+◌, ◌^◌, ◌≤◌, ◌<◌, ◌≡◌, refl, sym, subst, ◌∙◌, arith, true, false, leb, ◌==◌, size_mod, List,
  [], ◌∷◌, get_elem?, some, if◌then◌else◌,
}
use just_library.LinearAlloc.{LinearAllocator, allocate, reset, rewind}
use just_library.LinearAlloc.Bump.{IsValid, Allocated, granted, exhausted, allocate-Allocated}
use just_library.LinearAlloc.Stacked.{
  Block, Stacked, below, Stacked-le, Stacked-below, within, ordered,
}

-- The blocks in use after a request that returned `address`.
abbrev pub taken : ℕ → ℕ → List Block → List Block
taken address size blocks =
    if address == 0 then blocks else record { address = address; size = size } ∷ blocks

-- One call on the allocator. A rewind to a marker gives up every block that does not end in front of
-- it, a reset all of them.
pub data Step (a : LinearAllocator) (blocks : List Block)
    : LinearAllocator → List Block → Type 0 where
  allocates :
      (size k : ℕ) (p : ℕ) (a' : LinearAllocator)
      → 0 < size
      → k < 64
      → a.memory + a.total_size + size + 2 ^ k < size_mod
      → allocate a size (2 ^ k) ≡ (p, a')
      → Step a blocks a' (taken p size blocks)
  rewinds :
      (marker : ℕ)
      → marker ≤ a.allocated
      → Step a blocks (rewind a marker) (below (a.memory + marker) blocks)
  resets : Step a blocks (reset a) []

pub data Reaches (a : LinearAllocator) (blocks : List Block)
    : LinearAllocator → List Block → Type 0 where
  here : Reaches a blocks a blocks
  after :
      {a' a'' : LinearAllocator} {blocks' blocks'' : List Block}
      → Reaches a blocks a' blocks'
      → Step a' blocks' a'' blocks''
      → Reaches a blocks a'' blocks''

-- What holds of an allocator and the blocks that are in use.
record IsLive (memory total : ℕ) (a : LinearAllocator) (blocks : List Block) : Type 0 where
  same_memory : a.memory ≡ memory
  same_total : a.total_size ≡ total
  valid : IsValid a
  somewhere : 0 < a.memory
  stacked : Stacked a.memory blocks (a.memory + a.allocated)

allocated-IsLive :
    (m n : ℕ) (a : LinearAllocator) (blocks : List Block) (size al : ℕ) (r : ℕ × LinearAllocator)
    → IsLive m n a blocks
    → Allocated a size al r
    → IsLive m n r.1 (taken r.0 size blocks)
unfolding Stacked
allocated-IsLive m n a blocks size al r v (exhausted full) = v
allocated-IsLive m n a blocks size al r v (granted {p = p} {a' = a'} first ends same total valid) =
    let start = v.somewhere in
    let behind = first.1 in
    let nonzero : (p == 0) ≡ false = ground arith in
    let both : (p + size ≤ a'.memory + a'.allocated) × Stacked a'.memory blocks p = (
      omega (arith, ends),
      subst (λ c. Stacked c blocks p) (sym same)
          (Stacked-le a.memory blocks (a.memory + a.allocated) p behind v.stacked),
    ) in
    record {
      same_memory = same ∙ v.same_memory;
      same_total = total ∙ v.same_total;
      valid = valid;
      somewhere = omega (arith, same);
      stacked =
          subst
            (λ t.
              Stacked a'.memory (if t then blocks else record { address = p; size = size } ∷ blocks)
                (a'.memory + a'.allocated))
            (sym nonzero) both;
    }

Step-IsLive :
    {m n : ℕ} {a a' : LinearAllocator} {blocks blocks' : List Block}
    → IsLive m n a blocks
    → Step a blocks a' blocks'
    → IsLive m n a' blocks'
unfolding rewind reset Stacked
Step-IsLive {m = m} {n = n} {a = a} {blocks = blocks} v (Step.allocates size k p a' pos l fits e) =
    subst (λ (r : ℕ × LinearAllocator). IsLive m n r.1 (taken r.0 size blocks)) e
      (allocated-IsLive m n a blocks size (2 ^ k) (allocate a size (2 ^ k)) v
        (allocate-Allocated a size k v.valid pos l fits))
Step-IsLive {m = m} {n = n} {a = a} {blocks = blocks} v (Step.rewinds marker l) =
    let yes_back : leb marker a.allocated ≡ true = ground arith in
    let old = v.valid.bounded in
    let back : LinearAllocator = record a { allocated = marker } in
    subst (λ t. IsLive m n (if t then back else a) (below (a.memory + marker) blocks))
      (sym yes_back)
      (record {
        same_memory = v.same_memory;
        same_total = v.same_total;
        valid = record { bounded = omega arith; addressed = v.valid.addressed };
        somewhere = v.somewhere;
        stacked =
            Stacked-below a.memory blocks (a.memory + a.allocated) (a.memory + marker) (omega arith)
              v.stacked;
      })
Step-IsLive v Step.resets = record {
  same_memory = v.same_memory;
  same_total = v.same_total;
  valid = record { bounded = omega arith; addressed = v.valid.addressed };
  somewhere = v.somewhere;
  stacked = omega arith;
}

Reaches-IsLive :
    (m n : ℕ) (a : LinearAllocator) (blocks : List Block) (a' : LinearAllocator)
    (blocks' : List Block)
    → IsLive m n a blocks
    → Reaches a blocks a' blocks'
    → IsLive m n a' blocks'
Reaches-IsLive m n a blocks a' blocks' v Reaches.here = v
Reaches-IsLive m n a blocks a' blocks' v (Reaches.after {a' = mid} {blocks' = held} run next) =
    Step-IsLive (Reaches-IsLive m n a blocks mid held v run) next

-- Blocks in a buffer that do not overlap.
pub record AreApart (memory total : ℕ) (blocks : List Block) : Type 0 where
  pub inside :
      (i : ℕ) (b : Block)
      → get_elem? blocks i ≡ some b
      → (memory ≤ b.address) × (b.address + b.size ≤ memory + total)
  pub apart :
      (i j : ℕ) (b c : Block)
      → i < j
      → get_elem? blocks i ≡ some b
      → get_elem? blocks j ≡ some c
      → c.address + c.size ≤ b.address

-- Whatever is allocated with sums that stay below 2 ^ 64, rewound and reset, in any order, from a
-- valid allocator with a buffer and no block in use: the blocks in use lie in the buffer, and of two
-- of them the older one ends in front of the newer one.
pub Reaches-AreApart :
    (a a' : LinearAllocator) (blocks : List Block)
    → IsValid a
    → 0 < a.memory
    → Reaches a [] a' blocks
    → AreApart a.memory a.total_size blocks
unfolding Stacked
Reaches-AreApart a a' blocks valid somewhere run =
    let v =
      Reaches-IsLive a.memory a.total_size a [] a' blocks
        (record {
          same_memory = refl;
          same_total = refl;
          valid = valid;
          somewhere = somewhere;
          stacked = omega arith;
        })
        run in
    let bound = v.valid.bounded in
    let same = v.same_memory in
    let size = v.same_total in
    record {
      inside = λ i b at.
          let (l, l') = within a'.memory blocks (a'.memory + a'.allocated) i b v.stacked at in
          (omega (arith, l, same), omega (arith, l', same, size, bound));
      apart = λ i j b c l at at'.
          ordered a'.memory blocks (a'.memory + a'.allocated) i j b c v.stacked l at at';
    }
