-- ===== src/ObjectPool/Valid.antt =====
-- What the operations do to a valid pool.
use just_library.Base.{
  ℕ, ◌+◌, ◌*◌, ◌%◌, ◌≤◌, ◌<◌, ◌≡◌, refl, sym, ap, subst, true, false, Option, none, some, List, [],
  ◌∷◌, length, arith, ◌==◌, size_mod, sub_size,
}
use native.Mathlib.Decide.{ℕ_discrete}
use native.Mathlib.Nat.{mul-le-mul_left}
use just_library.ObjectPool.{
  ObjectPool, Words, store_word, end_of_list, take_object, take_from, return_object,
}
use just_library.ObjectPool.Slots.{
  times, erase, offsets, Linked, times-erase_self, times-erase_other, length-erase, Linked-store,
  offsets-once, offsets-bounded,
}

-- The free list runs through the offsets `free`, and with the objects `taken` these are the slots
-- of the pool, each once.
pub record IsValid (p : ObjectPool) (free taken : List ℕ) : Type 0 where
  pub words : Words
  pub held : p.memory ≡ some words
  pub wide : 0 < p.stride
  pub addressed : p.capacity * p.stride < size_mod
  pub linked : Linked words p.free_list_offset free
  pub counted : p.free_count ≡ length free
  pub shared : length free + length taken ≡ p.capacity
  pub owned : (x : ℕ) → times x free + times x taken ≡ times x (offsets p.stride p.capacity 0)

capacity-lt : {p : ObjectPool} {free taken : List ℕ} → IsValid p free taken → p.capacity < size_mod
capacity-lt {p} v = omega (arith, v.addressed, mul-le-mul_left p.capacity v.wide)

-- How a request for an object ends: with an object that nobody has, or, where all are taken, with
-- NULL and the pool as it was.
pub data Took (p : ObjectPool) (free taken : List ℕ) : Option ℕ × ObjectPool → Type 0 where
  got :
      {x : ℕ} {p' : ObjectPool} (xs : List ℕ)
      → free ≡ x ∷ xs
      → times x taken ≡ 0
      → x % p.stride ≡ 0
      → x + p.stride ≤ p.capacity * p.stride
      → IsValid p' xs (x ∷ taken)
      → Took p free taken (some x, p')
  out : length taken ≡ p.capacity → Took p free taken (none, p)

-- `justObjectPoolTakeObject` on a valid pool.
pub take_object-Took :
    (p : ObjectPool) (free taken : List ℕ)
    → IsValid p free taken
    → Took p free taken (take_object p)
unfolding take_object take_from times Linked
take_object-Took p [] taken v =
    let full : (p.free_list_offset == end_of_list) ≡ true = ground (arith, v.linked) in
    rw full (out (omega (arith, v.shared)))
take_object-Took p (x ∷ xs) taken v =
    let at = v.linked.0 in
    let once = offsets-once p.stride p.capacity 0 x v.wide in
    let mine : 0 < times x (x ∷ xs) = ground arith in
    let (multiple, within) =
      offsets-bounded p.stride p.capacity x (omega (arith, mine, v.owned x)) in
    let some_left : (p.free_list_offset == end_of_list) ≡ false =
      ground (arith, at, within, v.addressed, v.wide) in
    let few = capacity-lt v in
    rw some_left (
      subst (λ o. Took p (x ∷ xs) taken (take_from p o)) (sym v.held)
        (subst
          (λ y. Took p (x ∷ xs) taken (
            some y,
            record p { free_list_offset = v.words y; free_count = sub_size p.free_count 1 },
          ))
          (sym at)
          (got xs refl (omega (arith, mine, once, v.owned x)) multiple within (record {
            words = v.words;
            held = v.held;
            wide = v.wide;
            addressed = v.addressed;
            linked = v.linked.1;
            counted = omega (arith, v.counted, v.shared, few);
            shared = omega (arith, v.shared);
            owned = λ z. omega (arith, v.owned z);
          }))))

-- the new head, with the list behind it
pushed :
    (w : Words) (head : ℕ) (free : List ℕ) (x : ℕ)
    → times x free ≡ 0
    → Linked w head free
    → Linked (store_word w x head) (store_word w x head x) free
pushed w head free x gone linked =
    let here : (x == x) ≡ true = ground arith in
    rw here (Linked-store w head free x head gone linked)

-- `justObjectPoolReturnObject` on a valid pool, for an object that is taken.
pub return_object-IsValid :
    (p : ObjectPool) (free taken : List ℕ) (x : ℕ)
    → IsValid p free taken
    → 0 < times x taken
    → IsValid (return_object p x) (x ∷ free) (erase x taken)
unfolding return_object times Linked
return_object-IsValid p free taken x v l =
    let once = offsets-once p.stride p.capacity 0 x v.wide in
    let gone : times x free ≡ 0 = omega (arith, v.owned x) in
    let fewer = length-erase x taken l in
    let few = capacity-lt v in
    record {
      words = store_word v.words x p.free_list_offset;
      held =
          ap (λ o. elim o [ none ↦ none | some w ↦ some (store_word w x p.free_list_offset) ])
            v.held;
      wide = v.wide;
      addressed = v.addressed;
      linked = (refl, pushed v.words p.free_list_offset free x gone v.linked);
      counted = omega (arith, v.counted, v.shared, fewer, few);
      shared = omega (arith, v.shared, fewer);
      owned = λ z. elim (ℕ_discrete z x) [
        | yes e ↦ rw e (ground (arith, v.owned x, times-erase_self x taken l))
        | no d ↦ ground (arith, v.owned z, times-erase_other x z taken d)
      ];
    }
