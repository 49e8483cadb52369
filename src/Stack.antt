-- ===== src/Stack.antt =====
-- include/justUtils/dataStructures/stack.h: a dynamic array used at its end.
pub mod Order
use just_library.Base.{
  ℕ, ◌+◌, ◌-◌, Bool, true, false, Option, none, some, List, sub_size, if◌then◌else◌, ◌==◌,
}
use just_library.Memory.{Memory}
use just_library.DynamicArray
use just_library.DynamicArray.{DynamicArray}

-- `JustStack`
pub record Stack (A : Type 0) : Type 0 where
  pub array : DynamicArray A

module _ {A : Type 0} where
  -- `justStackPop`
  unfoldable pub pop : Stack A → Bool → Bool × Option A × Stack A
  pop st wanted =
      if st.array.size == 0
      then (false, none, st)
      else let (done, out, array) = DynamicArray.pop st.array wanted in
        (done, out, record { array = array })

  -- `justStackPeek`: the slot of the last element, or NULL
  unfoldable pub peek : Stack A → Option ℕ
  peek st =
      if st.array.size == 0
      then none
      else some (DynamicArray.at st.array (sub_size st.array.size 1))

  -- `justStackSize`, `justStackIsEmpty`
  unfoldable pub size_of : Stack A → ℕ
  size_of st = st.array.size

  unfoldable pub is_empty : Stack A → Bool
  is_empty st = st.array.size == 0

  module _ (m : Memory A) where
    open m use {Store}

    -- `justStackCreate`
    unfoldable pub create : ℕ → ℕ → Bool → Store → Bool × Stack A × Store
    create wanted element_size linear s =
        let (done, array, s') = DynamicArray.create m wanted element_size linear s in
        (done, record { array = array }, s')

    -- `justStackDestroy`
    unfoldable pub destroy : Stack A → Store → Stack A × Store
    destroy st s =
        let (array, s') = DynamicArray.destroy m st.array s in (record { array = array }, s')

    -- `justStackEmplace`
    unfoldable pub emplace : Stack A → Store → Option ℕ × Stack A × Store
    emplace st s =
        let (slot, array, s') = DynamicArray.emplace m st.array s in
        (slot, record { array = array }, s')

    -- `justStackPush`
    unfoldable pub push : Stack A → A → Store → Bool × Stack A × Store
    push st x s =
        let (done, array, s') = DynamicArray.push m st.array x s in
        (done, record { array = array }, s')
