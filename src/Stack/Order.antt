-- ===== src/Stack/Order.antt =====
-- Last in, first out.
use just_library.Base.{
  ℕ, ◌*◌, ◌^◌, ◌<◌, ◌≡◌, refl, sym, ap, ◌∙◌, Bool, true, Option, none, some, List, size_mod, ◌==◌,
  Bool-cases, inl, inr, subst,
}
use just_library.Memory.{Memory, read}
use just_library.DynamicArray
use just_library.DynamicArray.{grow_target, new_capacity}
use just_library.DynamicArray.Valid.{Models}
use just_library.DynamicArray.Push.{pop-push}
use just_library.Stack.{Stack, push, pop, peek}

module _ {A : Type 0} where
  -- the element behind what `justStackPeek` returned
  abbrev pub peeked : Stack A → Option ℕ → Option A
  peeked st none = none
  peeked st (some i) = read st.array.block i

  -- `justStackPop` is the pop of the array, whose guard it repeats.
  pop-array :
      (st : Stack A) (wanted : Bool)
      → ((pop st wanted).0 ≡ (DynamicArray.pop st.array wanted).0)
        × ((pop st wanted).1 ≡ (DynamicArray.pop st.array wanted).1)
        × ((pop st wanted).2.array ≡ (DynamicArray.pop st.array wanted).2)
  unfolding pop DynamicArray.pop
  pop-array st wanted = elim (Bool-cases (st.array.size == 0)) [
    | inl e ↦ rw e (refl, refl, refl)
    | inr e ↦ rw e (refl, refl, refl)
  ]

  -- On every stack `justStackPeek` points at the element that `justStackPop` would give out, and at
  -- nothing where the pop would fail.
  pub peek-pop : (st : Stack A) → peeked st (peek st) ≡ (pop st true).1
  unfolding peek pop DynamicArray.pop DynamicArray.at
  peek-pop st = elim (Bool-cases (st.array.size == 0)) [ inl e ↦ rw e refl | inr e ↦ rw e refl ]

module _ {A : Type 0} (m : Memory A) where
  open m use {Store}

  -- After a push that succeeds on a valid stack of fewer than 2 ^ 63 slots whose doubled block
  -- would fit `size_t`, a pop gives back the value pushed and leaves a valid stack of the elements
  -- that were there before.
  pub pop-push_value :
      (st st' : Stack A) (xs : List A) (x : A) (s s' : Store)
      → Models st.array xs
      → 0 < st.array.element_size
      → st.array.capacity < 2 ^ 63
      → new_capacity st.array (grow_target st.array) * st.array.element_size < size_mod
      → push m st x s ≡ (true, st', s')
      → ((pop st' true).0 ≡ true) × ((pop st' true).1 ≡ some x) × Models (pop st' true).2.array xs
  unfolding push
  pop-push_value st st' xs x s s' v pos small fits run =
      let below : DynamicArray.push m st.array x s ≡ (true, st'.array, s') =
        ap (λ r. (r.0, r.1.array, r.2)) run in
      let (done, out, rest) = pop-push m st.array st'.array xs x s s' v pos small fits below in
      let (same_done, same_out, same_array) = pop-array st' true in
      (same_done ∙ done, same_out ∙ out, subst (λ a. Models a xs) (sym same_array) rest)
