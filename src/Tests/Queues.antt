-- ===== src/Tests/Queues.antt =====
-- Queues on concrete inputs: a full queue of eight slots, and one of sixteen.
use just_library.Base.{
  ℕ, zero, suc, ◌≡◌, refl, true, false, some, List, [], ◌∷◌, arith, copy, inl, inr,
}
use just_library.Memory.{allocate}
use just_library.Circular.{Holds}
use just_library.PowerOfTwo.{smear, round_up, queue_round_to_power_of_two}
use just_library.Queue.{
  Queue, finish_reserve, move_into, enqueue, dequeue, reserve, shrink_to_fit, emplace, linearize,
  grow_target, target_capacity,
}
use just_library.Queue.Valid.{Usable, Models}
use just_library.Queue.Grow.{Reserved, reserve-Reserved}
use just_library.Queue.Refine.{Dequeued, dequeue_refines, Enqueued, enqueue-Enqueued}
use just_library.Queue.Overrun.{shrink_overruns}
use just_library.Tests.Heap.{heap, request, fit}

-- the numbers 1 to 8 from the third slot round to the second
abbrev full_block : List ℕ
full_block = 7 ∷ 8 ∷ 1 ∷ 2 ∷ 3 ∷ 4 ∷ 5 ∷ 6 ∷ []

abbrev full : Queue ℕ
full = record {
  block = some full_block;
  capacity = 8;
  mask = 7;
  size = 8;
  head = 2;
  tail = 2;
  element_size = 8;
  linear = false;
}

abbrev held : List ℕ
held = 1 ∷ 2 ∷ 3 ∷ 4 ∷ 5 ∷ 6 ∷ 7 ∷ 8 ∷ []

full-Holds : Holds full_block 8 2 held
full-Holds zero h = refl
full-Holds (suc zero) h = refl
full-Holds (suc (suc zero)) h = refl
full-Holds (suc (suc (suc zero))) h = refl
full-Holds (suc (suc (suc (suc zero)))) h = refl
full-Holds (suc (suc (suc (suc (suc zero))))) h = refl
full-Holds (suc (suc (suc (suc (suc (suc zero)))))) h = refl
full-Holds (suc (suc (suc (suc (suc (suc (suc zero))))))) h = refl
full-Holds (suc (suc (suc (suc (suc (suc (suc (suc i)))))))) h = absurd (omega arith)

full-Usable : Usable full held
full-Usable = record {
  buffer = full_block;
  exponent = 3;
  present = refl;
  small = omega arith;
  power = refl;
  masked = refl;
  room = omega arith;
  head_in = omega arith;
  tail_after = refl;
  holds = full-Holds;
}

full-Models : Models full held
full-Models = record { counted = refl; fits = omega arith; stored = inl full-Usable }

sixteen : target_capacity full 16 ≡ 16
unfolding queue_round_to_power_of_two round_up smear
sixteen = refl

grown : target_capacity full (grow_target full) ≡ 16
unfolding queue_round_to_power_of_two round_up smear grow_target
grown = refl

enqueue-Enqueued_example : Enqueued heap full held 9 1 (enqueue heap full 9 1)
enqueue-Enqueued_example =
    enqueue-Enqueued heap full held 9 1 full-Models (omega arith) (omega arith)
      (omega (arith, grown))

dequeue_refines_example : Dequeued full true held (dequeue full true)
dequeue_refines_example = dequeue_refines full held true full-Models

reserve-Reserved_example : Reserved heap full held 16 1 (reserve heap full 16 1)
reserve-Reserved_example =
    reserve-Reserved heap full held 16 1 full-Models (omega arith) (omega arith)
      (omega (arith, sixteen)) (inr (omega (arith, sixteen)))

abbrev sparse : Queue ℕ
sparse = record {
  block = some (1 ∷ 2 ∷ 3 ∷ 4 ∷ 5 ∷ 6 ∷ 7 ∷ 8 ∷ 0 ∷ 0 ∷ 0 ∷ 0 ∷ 0 ∷ 0 ∷ 0 ∷ 0 ∷ []);
  capacity = 16;
  mask = 15;
  size = 8;
  head = 0;
  tail = 8;
  element_size = 8;
  linear = false;
}

abbrev cut : Queue ℕ
cut = record sparse { block = some (1 ∷ 2 ∷ 3 ∷ 4 ∷ 5 ∷ 6 ∷ 7 ∷ 8 ∷ []); capacity = 8; mask = 7 }

eight : target_capacity sparse 8 ≡ 8
unfolding queue_round_to_power_of_two round_up smear
eight = refl

cut-eq : shrink_to_fit heap sparse 1 ≡ (true, cut, 0)
unfolding shrink_to_fit reserve queue_round_to_power_of_two round_up smear finish_reserve allocate
    request move_into linearize copy fit
cut-eq = refl

-- Slot 8 of a block of eight.
shrink_overruns_example :
    (emplace heap (dequeue cut false).2 0).0 ≡ some (dequeue cut false).2.capacity
shrink_overruns_example =
    shrink_overruns heap sparse cut 1 0 false (omega arith) (omega arith) eight (omega arith) cut-eq

abbrev drained : Queue ℕ
drained = record full { size = 0; head = 0; tail = 0 }

abbrev moved : Queue ℕ
moved = record drained {
  block = some (0 ∷ 0 ∷ 0 ∷ 0 ∷ 0 ∷ 0 ∷ 0 ∷ 0 ∷ 0 ∷ 0 ∷ 0 ∷ 0 ∷ 0 ∷ 0 ∷ 0 ∷ 0 ∷ []);
  capacity = 16;
  mask = 15;
}

sixteen_drained : target_capacity drained 16 ≡ 16
unfolding queue_round_to_power_of_two round_up smear
sixteen_drained = refl

moved-eq : reserve heap drained 16 1 ≡ (true, moved, 0)
unfolding reserve queue_round_to_power_of_two round_up smear finish_reserve allocate request
    move_into fit
moved-eq = refl
