-- ===== src/Tests/Pools.antt =====
-- A pool of three objects.
use just_library.Base.{
  ℕ, ◌+◌, refl, Option, none, some, [], ◌∷◌, arith, ◌^◌, ◌*◌, if◌then◌else◌, ◌==◌, size_max, true,
}
use just_library.ObjectPool.{
  ObjectPool, Words, stride_of, min_slot_size, create, take_object, take_from, return_object,
}
use just_library.ObjectPool.Slots.{times, erase, offsets, Linked}
use just_library.ObjectPool.Valid.{IsValid}
use just_library.ObjectPool.Create.{Wired, backing, create-Wired}
use just_library.ObjectPool.Steps.{
  takes, returns, Reaches, start, step, with_object, Separate, Reaches-Separate,
}
use just_library.Base.Align.{FirstMultiple}

abbrev words : Words
words x = if x == 0 then 99 else if x == 16 then 8 else size_max

-- 8 and 16 are free; the object at 0 is taken and holds 99
abbrev three : ObjectPool
three = record {
  stride = 8;
  object_size = 5;
  capacity = 3;
  free_list_offset = 16;
  free_count = 2;
  memory = some words;
  owns_memory = true;
}

three-IsValid : IsValid three (16 ∷ 8 ∷ []) (0 ∷ [])
unfolding Linked times offsets
three-IsValid = record {
  words = words;
  held = refl;
  wide = omega arith;
  addressed = omega arith;
  linked = (refl, (refl, refl));
  counted = refl;
  shared = refl;
  owned = λ x. ground arith;
}

abbrev malloc : ℕ → ℕ → Option Words × ℕ
malloc bytes s = (some (λ x. 7), s + bytes)

abbrev free : Words → ℕ → ℕ
free w s = s

create-Wired_example :
    FirstMultiple (min_slot_size 5) (2 ^ 4) (stride_of 5 (2 ^ 4))
    × Wired malloc free 3
        (stride_of 5 (2 ^ 4))
        (backing malloc free (3 * stride_of 5 (2 ^ 4)) none 0)
        (create malloc free three 3 5 (2 ^ 4) none 0)
unfolding stride_of
create-Wired_example =
    create-Wired malloc free three 3 5 4 none 0 (omega arith) (omega arith) (omega arith)
      (omega arith)

-- a request, and the return of the object at 0
run :
    Reaches three
      (0 ∷ [])
      (return_object (take_object three).1 0)
      (erase 0 (with_object (take_object three).0 (0 ∷ [])))
unfolding times take_object take_from
run = step (step start takes) (returns 0 (omega arith))

Reaches-Separate_example :
    Separate
      (return_object (take_object three).1 0)
      (erase 0 (with_object (take_object three).0 (0 ∷ [])))
Reaches-Separate_example = Reaches-Separate three _ (16 ∷ 8 ∷ []) (0 ∷ []) _ three-IsValid run
