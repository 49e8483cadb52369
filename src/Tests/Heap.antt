-- ===== src/Tests/Heap.antt =====
-- A memory for the tests: blocks of numbers, and a store that counts the allocations that will
-- still be granted. A new block is zeroed.
use just_library.Base.{
  ℕ, zero, suc, ◌/◌, ◌<◌, ◌≡◌, refl, sym, ap, ◌∙◌, Option, none, some, List, [], ◌∷◌, length,
  get_elem?, arith,
}
use just_library.Memory.{Memory}

-- the first `n` elements, with zeros behind them
unfoldable pub fit : ℕ → List ℕ → List ℕ
fit zero xs = []
fit (suc n) [] = 0 ∷ fit n []
fit (suc n) (x ∷ xs) = x ∷ fit n xs

pub length-fit : (n : ℕ) (xs : List ℕ) → length (fit n xs) ≡ n
unfolding fit
length-fit zero xs = refl
length-fit (suc n) [] = omega (arith, length-fit n [])
length-fit (suc n) (x ∷ xs) = omega (arith, length-fit n xs)

get_elem?-fit :
    (n : ℕ) (xs : List ℕ) (i : ℕ) → i < length xs → i < n → get_elem? (fit n xs) i ≡ get_elem? xs i
unfolding fit
get_elem?-fit zero xs i h l = absurd (omega arith)
get_elem?-fit (suc n) [] i h l = absurd (omega arith)
get_elem?-fit (suc n) (x ∷ xs) zero h l = refl
get_elem?-fit (suc n) (x ∷ xs) (suc i) h l = get_elem?-fit n xs i (omega arith) (omega arith)

unfoldable pub request : List ℕ → ℕ → ℕ → Option (List ℕ) × ℕ
request old n zero = (none, zero)
request old n (suc left) = (some (fit n old), left)

block_of : Option (List ℕ) → List ℕ
block_of none = []
block_of (some block) = block

pub length-request :
    (old : List ℕ) (n left left' : ℕ) (block : List ℕ)
    → request old n left ≡ (some block, left')
    → length block ≡ n
unfolding request block_of
length-request old n zero left' block h = absurd (cc (ap (λ r. r.0) h))
length-request old n (suc left) left' block h =
    let got = ap (λ r. length (block_of r.0)) h in omega (arith, got, length-fit n old)

pub request-keeps :
    (old : List ℕ) (n left left' : ℕ) (block : List ℕ) (i : ℕ)
    → request old n left ≡ (some block, left')
    → i < length old
    → i < length block
    → get_elem? block i ≡ get_elem? old i
unfolding request block_of
request-keeps old n zero left' block i h l k = absurd (cc (ap (λ r. r.0) h))
request-keeps old n (suc left) left' block i h l k =
    let got = ap (λ r. block_of r.0) h in
    let size = length-request old n (suc left) left' block h in
    sym (ap (λ b. get_elem? b i) got) ∙ get_elem?-fit n old i l (omega arith)

abbrev pub heap : Memory ℕ
heap = record {
  Store = ℕ;
  linear_allocate = λ e b s. request [] (b / e) s;
  tracked_malloc = λ e b s. request [] (b / e) s;
  tracked_realloc = λ old e b s. request old (b / e) s;
  tracked_free = λ block s. s;
  linear-length = λ e b s s' block h. length-request [] (b / e) s s' block h;
  malloc-length = λ e b s s' block h. length-request [] (b / e) s s' block h;
  realloc-length = λ old e b s s' block h. length-request old (b / e) s s' block h;
  realloc-keeps = λ old e b s s' block i h l k. request-keeps old (b / e) s s' block i h l k;
}
