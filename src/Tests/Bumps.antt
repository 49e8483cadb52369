-- ===== src/Tests/Bumps.antt =====
-- Linear allocators on concrete inputs: 256 bytes at address 4096, of which 10 are taken.
use just_library.Base.{◌+◌, ◌-◌, ◌<◌, ◌≡◌, ◌≢◌, refl, true, List, [], arith, size_mod}
use just_library.Base.Align.{FirstMultiple}
use just_library.LinearAlloc.{LinearAllocator, allocate, aligned, padding, rewind}
use just_library.LinearAlloc.Bump.{IsValid, Allocated, allocate-Allocated}
use just_library.LinearAlloc.Stacked.{Block, below}
use just_library.LinearAlloc.Live.{Step, Reaches, taken, AreApart, Reaches-AreApart}
use just_library.LinearAlloc.Wrap.{allocate_wraps}

abbrev started : LinearAllocator
started = record { memory = 4096; total_size = 256; allocated = 10; owns_memory = true }

started-IsValid : IsValid started
started-IsValid = record { bounded = omega arith; addressed = omega arith }

allocate-Allocated_example : Allocated started 20 16 (allocate started 20 16)
allocate-Allocated_example =
    allocate-Allocated started 20 4 started-IsValid (omega arith) (omega arith) (omega arith)

allocate_wraps_example :
    (let size = size_mod - (10 + padding started 16) in
      let (p, a) = allocate started size 16 in
      FirstMultiple 4106 16 p × (p ≢ 0) × (4352 < p + size) × ((allocate a 8 16).0 ≡ 4096))
allocate_wraps_example =
    allocate_wraps started 8 4 started-IsValid (omega arith) refl (omega arith) (omega arith)
      (omega arith) (omega arith)

abbrev unused : LinearAllocator
unused = record { memory = 4096; total_size = 256; allocated = 0; owns_memory = true }

abbrev one_block : LinearAllocator
one_block = (allocate unused 20 16).1

abbrev both_blocks : LinearAllocator
both_blocks = (allocate one_block 8 8).1

abbrev in_use : List Block
in_use = below 4120 (taken (allocate one_block 8 8).0 8 (taken (allocate unused 20 16).0 20 []))

-- Two blocks, and a rewind that gives up the second.
two_blocks : Reaches unused [] (rewind both_blocks 24) in_use
unfolding allocate aligned padding
two_blocks =
    Reaches.after
      (Reaches.after
        (Reaches.after Reaches.here
          (Step.allocates 20 4 4096 one_block (omega arith) (omega arith) (omega arith) refl))
        (Step.allocates 8 3 4120 both_blocks (omega arith) (omega arith) (omega arith) refl))
      (Step.rewinds 24 (omega arith))

Reaches-AreApart_example : AreApart 4096 256 in_use
Reaches-AreApart_example =
    Reaches-AreApart unused (rewind both_blocks 24) in_use
      (record { bounded = omega arith; addressed = omega arith }) (omega arith) two_blocks
