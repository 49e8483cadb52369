-- ===== src/Queue/Reserve.antt =====
-- `justQueueReserve` moves the elements to the front of the new block and keeps them all.
use native.Mathlib.Decide.{dec_lt}
use just_library.Base.{
  ℕ, ◌+◌, ◌-◌, ◌%◌, ◌≤◌, ◌<◌, ◌≡◌, inl, inr, ap, subst, ◌∙◌, true, false, List, length, get_elem?,
  copy, length-copy, get_elem?-copy, get_elem?-copy_front, get_elem?-copy_before, arith,
  mod-eq_of_lt, mod-eq-sub-mod, sub_size, sub_size-eq, size_mod, leb, Bool-cases,
}
use just_library.Circular.{Holds}
use just_library.Queue.{Queue, linearize}

module _ {A : Type 0} where
  pub length-linearize :
      (q : Queue A) (old fresh : List A) → length (linearize q old fresh) ≡ length fresh
  unfolding linearize
  length-linearize q old fresh = elim (Bool-cases (leb q.size (sub_size q.capacity q.head))) [
    | inl e ↦ rw e (length-copy _ fresh 0 old q.head)
    | inr e ↦
        rw e (length-copy _ _ (sub_size q.capacity q.head) old 0 ∙ length-copy _ fresh 0 old q.head)
  ]

  module _ (q : Queue A) (xs old fresh : List A) (c : ℕ) (counted : q.size ≡ length xs)
      (fits : length xs ≤ q.capacity) (head_in : q.head < q.capacity)
      (small : q.capacity < size_mod) (room_old : q.capacity ≤ length old) (room : c ≤ length fresh)
      (enough : length xs ≤ c) (holds : Holds old q.capacity q.head xs) where
    first-eq : sub_size q.capacity q.head ≡ q.capacity - q.head
    first-eq = sub_size-eq q.capacity q.head (omega arith) small

    -- An element before the end of the old block.
    straight :
        (i : ℕ)
        → i < length xs
        → q.head + i < q.capacity
        → get_elem? old (q.head + i) ≡ get_elem? xs i
    straight i l h = rw (mod-eq_of_lt {n = q.head + i} {m = q.capacity} h) at (holds i l)

    -- An element past it.
    wrapped :
        (i : ℕ)
        → i < length xs
        → q.capacity ≤ q.head + i
        → get_elem? old (0 + (i - (q.capacity - q.head))) ≡ get_elem? xs i
    wrapped i l h =
        ap (get_elem? old) {x = 0 + (i - (q.capacity - q.head))} {y = (q.head + i) % q.capacity} e
        ∙ holds i l
      where
        e : 0 + (i - (q.capacity - q.head)) ≡ (q.head + i) % q.capacity
        e = omega (
          arith,
          mod-eq-sub-mod {n = q.head + i} {m = q.capacity} h,
          mod-eq_of_lt {n = q.head + i - q.capacity} {m = q.capacity} (omega arith),
        )

    one_part :
        leb q.size (q.capacity - q.head) ≡ true
        → linearize q old fresh ≡ copy q.size fresh 0 old q.head
    unfolding linearize
    one_part e = rw (first-eq, e)

    two_parts :
        leb q.size (q.capacity - q.head) ≡ false
        → linearize q old fresh
          ≡ copy
              (q.size - (q.capacity - q.head))
              (copy (q.capacity - q.head) fresh 0 old q.head)
              (q.capacity - q.head)
              old
              0
    unfolding linearize
    two_parts e =
        rw (first-eq, e, sub_size-eq q.size (q.capacity - q.head) (ground arith) (omega arith))

    at_slot : (i : ℕ) → i < length xs → get_elem? (linearize q old fresh) i ≡ get_elem? xs i
    at_slot i l = elim (Bool-cases (leb q.size (q.capacity - q.head))) [
      | inl e ↦ rw (one_part e) (
          get_elem?-copy_front q.size fresh old q.head i (omega arith) (ground arith) (omega arith)
          ∙ straight i l (ground arith))
      | inr e ↦
          let beyond : q.capacity - q.head < q.size = ground arith in
          rw (two_parts e) (elim (dec_lt i (q.capacity - q.head)) [
            | yes p ↦
                get_elem?-copy_before _ _ (q.capacity - q.head) old 0 i p
                ∙ get_elem?-copy_front (q.capacity - q.head) fresh old q.head i (omega arith)
                    (omega arith) p
                ∙ straight i l (omega arith)
            | no p ↦
                subst
                  (λ k.
                    get_elem?
                      (copy (q.size - (q.capacity - q.head))
                        (copy (q.capacity - q.head) fresh 0 old q.head) (q.capacity - q.head) old 0)
                      k
                    ≡ get_elem? xs i)
                  {x = q.capacity - q.head + (i - (q.capacity - q.head))} {y = i} (omega arith)
                  (get_elem?-copy (q.size - (q.capacity - q.head)) _ (q.capacity - q.head) old 0
                      (i - (q.capacity - q.head))
                      (omega (arith, length-copy (q.capacity - q.head) fresh 0 old q.head))
                      (omega arith) (omega arith)
                    ∙ wrapped i l (omega arith))
          ])
    ]

    -- After the copy the elements stand at the front of the new block, in order.
    pub linearize-Holds : Holds (linearize q old fresh) c 0 xs
    linearize-Holds i l =
        let e : 0 + i ≡ i = omega arith in
        rw (e, mod-eq_of_lt {n = i} {m = c} (omega arith)) (at_slot i l)
