-- ===== src/ObjectPool/Create.antt =====
-- A new pool: all its slots are free, in the order of their offsets.
use native.Mathlib.Nat.{mul-le-mul_left, mul-le-mul_right, add-mul}
use just_library.Base.{
  ℕ, zero, suc, ◌+◌, ◌*◌, ◌^◌, ◌≤◌, ◌<◌, ◌≡◌, refl, sym, ◌∙◌, subst, Bool, true, false, Option,
  none, some, [], arith, ◌==◌, size_mod, sub_size, mul_size, mul_size-eq,
}
use just_library.Base.Pow.{pow-pos}
use just_library.Base.Align.{FirstMultiple, align_up-FirstMultiple}
use just_library.ObjectPool.{
  ObjectPool, Words, store_word, end_of_list, wire, wired, min_slot_size, stride_of, finish_create,
  create,
}
use just_library.ObjectPool.Slots.{times, offsets, Linked, length-offsets}
use just_library.ObjectPool.Valid.{IsValid}

store_same : (w : Words) (x v : ℕ) → store_word w x v x ≡ v
store_same w x v = let e : (x == x) ≡ true = ground arith in rw e refl

store_below : (w : Words) (x v y : ℕ) → y < x → store_word w x v y ≡ w y
store_below w x v y l = let e : (y == x) ≡ false = ground arith in rw e refl

-- the links are written behind the slots that are done
wire-before :
    (stride n i : ℕ) (w : Words) (y : ℕ)
    → 0 < stride
    → (i + n + 1) * stride < size_mod
    → y < i * stride
    → wire stride n i w y ≡ w y
unfolding wire
wire-before stride zero i w y p fits l = refl
wire-before stride (suc n) i w y p fits l =
    let whole : i + suc n + 1 ≡ i + 1 + n + 1 = omega arith in
    let below : i ≤ i + suc n + 1 = omega arith in
    let here = mul_size-eq i stride (omega (arith, mul-le-mul_right stride below)) in
    let step = add-mul i 1 stride in
    wire-before stride n (i + 1) _ y p (rw⁻¹ whole fits) (omega (arith, step))
    ∙ store_below w (mul_size i stride) _ y (omega (arith, here))

-- The links of the slots from `i` on, with the mark of the end in the last one.
wire-Linked :
    (stride n i : ℕ) (w : Words)
    → 0 < stride
    → (i + n + 1) * stride < size_mod
    → Linked
        (store_word (wire stride n i w) ((i + n) * stride) end_of_list)
        (i * stride)
        (offsets stride (suc n) i)
unfolding wire offsets Linked
wire-Linked stride zero i w p fits =
    let e : i + zero ≡ i = omega arith in (refl, rw e (store_same w (i * stride) end_of_list))
wire-Linked stride (suc n) i w p fits =
    let whole : i + suc n ≡ i + 1 + n = omega arith in
    let more : i + 2 ≤ i + suc n + 1 = omega arith in
    let bound = mul-le-mul_right stride more in
    let step = add-mul i 1 stride in
    let steps = add-mul i 2 stride in
    let here = mul_size-eq i stride (omega (arith, bound, steps)) in
    let next = mul_size-eq (i + 1) stride (omega (arith, bound, steps, step)) in
    let w' = store_word w (mul_size i stride) (mul_size (i + 1) stride) in
    let fits' : (i + 1 + n + 1) * stride < size_mod = rw⁻¹ whole fits in
    let tail_at : i * stride < (i + suc n) * stride =
      (let below : i + 1 ≤ i + suc n = omega arith in
        omega (arith, mul-le-mul_right stride below, step)) in
    let link : store_word (wire stride n (i + 1) w') ((i + suc n) * stride) end_of_list (i * stride)
        ≡ (i + 1) * stride =
      store_below (wire stride n (i + 1) w') ((i + suc n) * stride) end_of_list (i * stride) tail_at
      ∙ wire-before stride n (i + 1) w' (i * stride) p fits' (omega (arith, step))
      ∙ (rw here (store_same w (i * stride) (mul_size (i + 1) stride)) ∙ next) in
    let rest = wire-Linked stride n (i + 1) w' p fits' in
    (
      refl,
      subst
          (λ h.
            Linked (store_word (wire stride n (i + 1) w') ((i + suc n) * stride) end_of_list) h
              (offsets stride (suc n) (i + 1)))
          (sym link)
          (subst
            (λ m.
              Linked (store_word (wire stride n (i + 1) w') (m * stride) end_of_list)
                ((i + 1) * stride) (offsets stride (suc n) (i + 1)))
            (sym whole) rest),
    )

wired-Linked :
    (stride c : ℕ) (w : Words)
    → 0 < stride
    → 0 < c
    → c * stride < size_mod
    → Linked (wired stride c w) 0 (offsets stride c 0)
unfolding wired
wired-Linked stride zero w p some_slots fits = absurd (omega arith)
wired-Linked stride (suc n) w p some_slots fits =
    let last : sub_size (suc n) 1 ≡ n = omega (arith, fits, mul-le-mul_left (suc n) p) in
    let here =
      mul_size-eq n stride (
        let below : n ≤ suc n = omega arith in
        omega (arith, fits, mul-le-mul_right stride below)) in
    let e : 0 + n + 1 ≡ suc n = omega arith in
    let f : 0 + n ≡ n = omega arith in
    let run : Linked (store_word (wire stride n 0 w) (n * stride) end_of_list) (0 * stride)
        (offsets stride (suc n) 0) =
      subst
        (λ m.
          Linked (store_word (wire stride n 0 w) (m * stride) end_of_list) (0 * stride)
            (offsets stride (suc n) 0))
        f (wire-Linked stride n 0 w p (rw e fits)) in
    let start : 0 * stride ≡ 0 = omega arith in
    subst
      (λ k.
        Linked (store_word (wire stride k 0 w) (mul_size k stride) end_of_list) 0
          (offsets stride (suc n) 0))
      (sym last)
      (subst
        (λ z. Linked (store_word (wire stride n 0 w) z end_of_list) 0 (offsets stride (suc n) 0))
        (sym here)
        (subst
          (λ h.
            Linked (store_word (wire stride n 0 w) (n * stride) end_of_list) h
              (offsets stride (suc n) 0))
          start run))

-- The stride is the first multiple of the alignment that is wide enough for the object and for a
-- `size_t`.
stride_of-FirstMultiple :
    (size k : ℕ)
    → k < 64
    → min_slot_size size + 2 ^ k < size_mod
    → FirstMultiple (min_slot_size size) (2 ^ k) (stride_of size (2 ^ k))
unfolding stride_of
stride_of-FirstMultiple size k l fits =
    let given : (2 ^ k == 0) ≡ false = ground (arith, pow-pos k) in
    rw given (align_up-FirstMultiple (min_slot_size size) k l fits)

module _ {Store : Type 0} (tracked_malloc : ℕ → Store → Option Words × Store)
    (tracked_free : Words → Store → Store) where
  -- where the memory comes from
  abbrev pub backing : ℕ → Option Words → Store → Option Words
  backing bytes none s = (tracked_malloc bytes s).0
  backing bytes (some w) s = some w

  -- How the creation of a pool ends.
  pub data Wired (c stride : ℕ) (asked : Option Words) : Bool × ObjectPool × Store → Type 0 where
    granted :
        {p : ObjectPool} {s : Store}
        → IsValid p (offsets stride c 0) []
        → p.capacity ≡ c
        → p.stride ≡ stride
        → Wired c stride asked (true, p, s)
    refused : {p : ObjectPool} {s : Store} → asked ≡ none → Wired c stride asked (false, p, s)

  finish_create-Wired :
      (p : ObjectPool) (res : Option Words × Store)
      → 0 < p.capacity
      → 0 < p.stride
      → p.capacity * p.stride < size_mod
      → Wired p.capacity p.stride res.0 (finish_create tracked_malloc tracked_free p res)
  unfolding finish_create times
  finish_create-Wired p (none, s) some_slots wide fits = refused refl
  finish_create-Wired p (some w, s) some_slots wide fits =
      granted
        (record {
          words = wired p.stride p.capacity w;
          held = refl;
          wide = wide;
          addressed = fits;
          linked = wired-Linked p.stride p.capacity w wide some_slots fits;
          counted = sym (length-offsets p.stride p.capacity 0);
          shared = omega (arith, length-offsets p.stride p.capacity 0);
          owned = λ x. omega arith;
        })
        refl refl

  created :
      (p : ObjectPool) (c size al : ℕ) (user_memory : Option Words) (s : Store)
      → 0 < c
      → 0 < stride_of size al
      → c * stride_of size al < size_mod
      → Wired c
          (stride_of size al)
          (backing (c * stride_of size al) user_memory s)
          (create tracked_malloc tracked_free p c size al user_memory s)
  unfolding create
  created p c size al none s some_slots wide bytes =
      let total = mul_size-eq c (stride_of size al) bytes in
      rw total
        (finish_create-Wired _ (tracked_malloc (c * stride_of size al) s) some_slots wide bytes)
  created p c size al (some w) s some_slots wide bytes =
      finish_create-Wired _ (some w, s) some_slots wide bytes

  -- `justObjectPoolCreate`, for at least one object, an alignment of a power of two and a total size
  -- that fits `size_t`: the stride is the first multiple of the alignment that is wide enough for
  -- the object and for a `size_t`, and either all slots are free, in the order of their offsets, or
  -- the memory is refused.
  pub create-Wired :
      (p : ObjectPool) (c size k : ℕ) (user_memory : Option Words) (s : Store)
      → 0 < c
      → k < 64
      → min_slot_size size + 2 ^ k < size_mod
      → c * stride_of size (2 ^ k) < size_mod
      → FirstMultiple (min_slot_size size) (2 ^ k) (stride_of size (2 ^ k))
        × Wired c
            (stride_of size (2 ^ k))
            (backing (c * stride_of size (2 ^ k)) user_memory s)
            (create tracked_malloc tracked_free p c size (2 ^ k) user_memory s)
  create-Wired p c size k user_memory s some_slots l fits bytes =
      let first = stride_of-FirstMultiple size k l fits in
      (first, created p c size (2 ^ k) user_memory s some_slots (ground (arith, first.1)) bytes)
