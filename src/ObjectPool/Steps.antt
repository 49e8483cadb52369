-- ===== src/ObjectPool/Steps.antt =====
-- A pool under any sequence of requests, returns and writes by the holders of its objects.
use just_library.Base.{
  ℕ, ◌+◌, ◌*◌, ◌%◌, ◌≤◌, ◌<◌, ◌≡◌, ap, Option, none, some, List, ◌∷◌, length, arith,
}
use just_library.ObjectPool.{ObjectPool, store_word, take_object, return_object}
use just_library.ObjectPool.Slots.{times, erase, Linked-store, offsets-once, offsets-bounded}
use just_library.ObjectPool.Valid.{IsValid, Took, got, out, take_object-Took, return_object-IsValid}

-- the pool after the holder of `x` has written to its first word
abbrev pub written : ObjectPool → ℕ → ℕ → ObjectPool
written p x v = record p {
  memory = elim p.memory [ none ↦ none | some w ↦ some (store_word w x v) ];
}

-- the objects that are taken, after a request
abbrev pub with_object : Option ℕ → List ℕ → List ℕ
with_object none taken = taken
with_object (some x) taken = x ∷ taken

-- The pool with the objects that are taken: an object is returned, and written to, by its holder.
pub data Step : ObjectPool → List ℕ → ObjectPool → List ℕ → Type 0 where
  takes :
      {p : ObjectPool} {taken : List ℕ}
      → Step p taken (take_object p).1 (with_object (take_object p).0 taken)
  returns :
      {p : ObjectPool} {taken : List ℕ} (x : ℕ)
      → 0 < times x taken
      → Step p taken (return_object p x) (erase x taken)
  writes :
      {p : ObjectPool} {taken : List ℕ} (x v : ℕ)
      → 0 < times x taken
      → Step p taken (written p x v) taken

pub data Reaches (p : ObjectPool) (taken : List ℕ) : ObjectPool → List ℕ → Type 0 where
  start : Reaches p taken p taken
  step :
      {p' p'' : ObjectPool} {taken' taken'' : List ℕ}
      → Reaches p taken p' taken'
      → Step p' taken' p'' taken''
      → Reaches p taken p'' taken''

abbrev Valid : ObjectPool → List ℕ → Type 0
Valid p taken = (free : List ℕ) × IsValid p free taken

written-IsValid :
    (p : ObjectPool) (free taken : List ℕ) (x v : ℕ)
    → 0 < times x taken
    → IsValid p free taken
    → IsValid (written p x v) free taken
written-IsValid p free taken x v l valid =
    let gone : times x free ≡ 0 =
      omega (arith, valid.owned x, offsets-once p.stride p.capacity 0 x valid.wide) in
    record {
      words = store_word valid.words x v;
      held = ap (λ o. elim o [ none ↦ none | some w ↦ some (store_word w x v) ]) valid.held;
      wide = valid.wide;
      addressed = valid.addressed;
      linked = Linked-store valid.words p.free_list_offset free x v gone valid.linked;
      counted = valid.counted;
      shared = valid.shared;
      owned = valid.owned;
    }

Took-Valid :
    {p : ObjectPool} {free taken : List ℕ} {r : Option ℕ × ObjectPool}
    → IsValid p free taken
    → Took p free taken r
    → Valid r.1 (with_object r.0 taken)
Took-Valid valid (got xs e unused multiple within after) = (xs, after)
Took-Valid {free = free} valid (out full) = (free, valid)

Step-Valid :
    {p p' : ObjectPool} {taken taken' : List ℕ}
    → Valid p taken
    → Step p taken p' taken'
    → Valid p' taken'
Step-Valid (free, valid) (takes {p = p} {taken = taken}) =
    Took-Valid valid (take_object-Took p free taken valid)
Step-Valid (free, valid) (returns {p = p} {taken = taken} x l) =
    (x ∷ free, return_object-IsValid p free taken x valid l)
Step-Valid (free, valid) (writes {p = p} {taken = taken} x v l) =
    (free, written-IsValid p free taken x v l valid)

Reaches-Valid :
    {p : ObjectPool} {taken : List ℕ} {p' : ObjectPool} {taken' : List ℕ}
    → Valid p taken
    → Reaches p taken p' taken'
    → Valid p' taken'
Reaches-Valid valid start = valid
Reaches-Valid valid (step r s) = Step-Valid (Reaches-Valid valid r) s

-- The objects that are taken are slots, aligned and within the memory, no two of them the same, and
-- the counter says how many are left.
pub record Separate (p : ObjectPool) (taken : List ℕ) : Type 0 where
  pub once : (x : ℕ) → times x taken ≤ 1
  pub aligned : (x : ℕ) → 0 < times x taken → x % p.stride ≡ 0
  pub within : (x : ℕ) → 0 < times x taken → x + p.stride ≤ p.capacity * p.stride
  pub counted : p.free_count + length taken ≡ p.capacity

-- Whatever is taken from a valid pool, returned to it by its holder and written to by its holder, in
-- any order: the objects in use are different slots of the pool.
pub Reaches-Separate :
    (p p' : ObjectPool) (free taken taken' : List ℕ)
    → IsValid p free taken
    → Reaches p taken p' taken'
    → Separate p' taken'
Reaches-Separate p p' free taken taken' valid r =
    let (free', v) = Reaches-Valid (free, valid) r in
    record {
      once = λ x. omega (arith, v.owned x, offsets-once p'.stride p'.capacity 0 x v.wide);
      aligned = λ x l. (offsets-bounded p'.stride p'.capacity x (omega (arith, v.owned x))).0;
      within = λ x l. (offsets-bounded p'.stride p'.capacity x (omega (arith, v.owned x))).1;
      counted = omega (arith, v.counted, v.shared);
    }
