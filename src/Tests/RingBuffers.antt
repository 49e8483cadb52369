-- ===== src/Tests/RingBuffers.antt =====
-- Rings on concrete inputs: a ring of four slots that has gone round the end of its block.
use just_library.Base.{
  ℕ, zero, suc, ◌≡◌, refl, subst, true, false, none, some, List, [], ◌∷◌, arith,
}
use just_library.Memory.{allocate}
use just_library.Circular.{Holds}
use just_library.PowerOfTwo.{smear, round_up, ring_next_power_of_two}
use just_library.PowerOfTwo.Least.{RoundsUp, ring_next_power_of_two-RoundsUp}
use just_library.RingBuffer.{
  RingBuffer, write_slot, emplace, claim, drop_oldest, create, push, pop, clear,
}
use just_library.RingBuffer.Valid.{Models}
use just_library.RingBuffer.Fifo.{Op, put, get, reset, fifo_run}
use just_library.RingBuffer.Refine.{run, run_refines}
use just_library.RingBuffer.Create.{Created, create-Created}
use just_library.Tests.Heap.{heap}

-- 7, 8, 9, from the last slot round to the second
abbrev wrapped : RingBuffer ℕ
wrapped = record {
  block = some (8 ∷ 9 ∷ 0 ∷ 7 ∷ []);
  capacity = 4;
  mask = 3;
  element_size = 8;
  head = 2;
  tail = 3;
  count = 3;
  allow_overwrite = true;
  linear = false;
}

abbrev held : List ℕ
held = 7 ∷ 8 ∷ 9 ∷ []

wrapped-Holds : Holds (8 ∷ 9 ∷ 0 ∷ 7 ∷ []) 4 3 held
wrapped-Holds zero h = refl
wrapped-Holds (suc zero) h = refl
wrapped-Holds (suc (suc zero)) h = refl
wrapped-Holds (suc (suc (suc i))) h = absurd (omega arith)

wrapped-Models : Models wrapped held
wrapped-Models = record {
  buffer = 8 ∷ 9 ∷ 0 ∷ 7 ∷ [];
  exponent = 2;
  present = refl;
  small = omega arith;
  power = refl;
  masked = refl;
  room = omega arith;
  tail_in = omega arith;
  counted = refl;
  fits = omega arith;
  head_after = refl;
  holds = wrapped-Holds;
}

abbrev script : List (Op ℕ)
script = put 1 ∷ put 2 ∷ get ∷ reset ∷ get ∷ []

run_refines_example : run wrapped script ≡ fifo_run 4 true held script
run_refines_example = run_refines script wrapped held wrapped-Models

-- 2 took the place of 7, so 8 is the first to come out.
run-wrapped :
    run wrapped script
    ≡ (true, none) ∷ (true, none) ∷ (true, some 8) ∷ (true, none) ∷ (false, none) ∷ []
unfolding run push pop clear write_slot emplace claim drop_oldest
run-wrapped = refl

five : ring_next_power_of_two 5 ≡ 8
unfolding ring_next_power_of_two round_up smear
five = refl

five-RoundsUp : RoundsUp 1 5 8
five-RoundsUp = subst (RoundsUp 1 5) five (ring_next_power_of_two-RoundsUp 5 (omega arith))

create-Created_example :
    let (done, r, s') = create heap 5 8 true false 3 in
    let (block, after) = allocate heap false 8 64 3 in (s' ≡ after) × Created block 5 true done r
create-Created_example =
    create-Created heap 5 8 8 true false 3 (omega arith) five-RoundsUp (omega arith) (omega arith)
