-- ===== src/Tests/Arrays.antt =====
-- Arrays and stacks on concrete inputs: three elements in a full block.
use just_library.Base.{ℕ, ◌≡◌, refl, true, false, some, List, [], ◌∷◌, arith, copy}
use just_library.DynamicArray.{
  DynamicArray, push, push_range, reserve, new_capacity, grow_target, emplace, grow, resize,
  resize_heap, finish_resize, claim, write_slot,
}
use just_library.DynamicArray.Valid.{Models}
use just_library.DynamicArray.Push.{Appended, push-Appended, push_range-Appended}
use just_library.Stack
use just_library.Stack.{Stack}
use just_library.Stack.Order.{pop-push_value}
use just_library.Tests.Heap.{heap, request, fit}

abbrev three : DynamicArray ℕ
three = record {
  block = some (4 ∷ 5 ∷ 6 ∷ []);
  capacity = 3;
  size = 3;
  element_size = 8;
  linear = false;
}

abbrev held : List ℕ
held = 4 ∷ 5 ∷ 6 ∷ []

three-Models : Models three held
three-Models = record {
  counted = refl;
  fits = omega arith;
  room = omega arith;
  small = omega arith;
  holds = λ i h. refl;
}

five : new_capacity three 5 ≡ 6
unfolding new_capacity
five = refl

doubled : new_capacity three (grow_target three) ≡ 6
unfolding new_capacity grow_target
doubled = refl

push_range-Appended_example :
    Appended heap three held (7 ∷ 8 ∷ []) 5 1 (push_range heap three (some (7 ∷ 8 ∷ [])) 2 1)
push_range-Appended_example =
    push_range-Appended heap three held (7 ∷ 8 ∷ []) 1 three-Models (omega arith) (omega arith)
      (omega (arith, five))

push-Appended_example :
    Appended heap three held (7 ∷ []) (grow_target three) 1 (push heap three 7 1)
push-Appended_example =
    push-Appended heap three held 7 1 three-Models (omega arith) (omega arith)
      (omega (arith, doubled))

abbrev stacked : Stack ℕ
stacked = record { array = three }

abbrev pushed : Stack ℕ
pushed = record {
  array = record three { block = some (4 ∷ 5 ∷ 6 ∷ 7 ∷ 0 ∷ 0 ∷ []); capacity = 6; size = 4 };
}

push-eq : Stack.push heap stacked 7 1 ≡ (true, pushed, 0)
unfolding Stack.push push write_slot emplace claim grow reserve grow_target finish_resize resize
    resize_heap request copy new_capacity fit
push-eq = refl

pop-push_value_example :
    ((Stack.pop pushed true).0 ≡ true)
    × ((Stack.pop pushed true).1 ≡ some 7)
    × Models (Stack.pop pushed true).2.array held
pop-push_value_example =
    pop-push_value heap stacked pushed held 7 1 0 three-Models (omega arith) (omega arith)
      (omega (arith, doubled)) push-eq
