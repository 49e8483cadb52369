-- ===== src/Filesystem/Files/Block.antt =====
-- The block that a file is read into.
use just_library.Base.{
  ℕ, ◌+◌, ◌-◌, ◌≤◌, ◌<◌, ◌≡◌, sym, ap, ◌∙◌, inl, inr, List, length, take, drop, get_elem?, copy,
  get_elem?-copy_before, get_elem?-copy, get_elem?-take, get_elem?-drop, ltb, ltb→lt, Bool-cases,
  arith,
}

-- The first `total` bytes of the block are those of the content.
pub record Filled (content : List ℕ) (total : ℕ) (block : List ℕ) : Type 0 where
  pub total-le : total ≤ length content
  pub bytes : (k : ℕ) → k < total → get_elem? block k ≡ get_elem? content k

pub copy-Filled :
    (content : List ℕ) (total : ℕ) (block chunk : List ℕ)
    → Filled content total block
    → chunk ≡ take (length chunk) (drop total content)
    → total + length chunk ≤ length content
    → total + length chunk ≤ length block
    → Filled content (total + length chunk) (copy (length chunk) block total chunk 0)
copy-Filled content total block chunk f e l r = record {
  total-le = l;
  bytes = λ k h. elim (Bool-cases (ltb k total)) [
    | inl b ↦
        let before = ltb→lt k total b in
        get_elem?-copy_before (length chunk) block total chunk 0 k before ∙ f.bytes k before
    | inr b ↦
        let j = k - total in
        let at : total + j ≡ k = ground arith in
        let here : 0 + j ≡ j = omega arith in
        ap (get_elem? (copy (length chunk) block total chunk 0)) (sym at)
        ∙ get_elem?-copy (length chunk) block total chunk 0 j r (omega arith) (omega arith)
        ∙ ap (get_elem? chunk) here
        ∙ ap (λ t. get_elem? t j) e
        ∙ get_elem?-take (length chunk) (drop total content) j (omega arith)
        ∙ get_elem?-drop total content j
        ∙ ap (get_elem? content) at
  ];
}
