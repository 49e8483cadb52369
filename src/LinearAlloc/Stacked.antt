-- ===== src/LinearAlloc/Stacked.antt =====
-- Blocks that lie one behind the other.
use just_library.Base.{
  ℕ, zero, suc, ◌+◌, ◌≤◌, ◌<◌, ◌≡◌, sym, subst, arith, leb, Bool-cases, inl, inr, List, [], ◌∷◌,
  get_elem?, some, if◌then◌else◌,
}

pub record Block : Type 0 where
  pub address : ℕ
  pub size : ℕ

-- The blocks lie one behind the other from `bottom` up to `top`, the newest in front.
unfoldable pub Stacked : ℕ → List Block → ℕ → Type 0
Stacked bottom [] top = bottom ≤ top
Stacked bottom (b ∷ blocks) top = (b.address + b.size ≤ top) × Stacked bottom blocks b.address

-- The blocks that end in front of an address.
unfoldable pub below : ℕ → List Block → List Block
below top [] = []
below top (b ∷ blocks) =
    let rest = below top blocks in if leb (b.address + b.size) top then b ∷ blocks else rest

pub Stacked-bottom :
    (bottom : ℕ) (blocks : List Block) (top : ℕ) → Stacked bottom blocks top → bottom ≤ top
unfolding Stacked
Stacked-bottom bottom [] top h = h
Stacked-bottom bottom (b ∷ blocks) top (e, h) =
    omega (arith, Stacked-bottom bottom blocks b.address h)

pub Stacked-le :
    (bottom : ℕ) (blocks : List Block) (top top' : ℕ)
    → top ≤ top'
    → Stacked bottom blocks top
    → Stacked bottom blocks top'
unfolding Stacked
Stacked-le bottom [] top top' l h = omega arith
Stacked-le bottom (b ∷ blocks) top top' l (e, h) = (omega arith, h)

pub Stacked-below :
    (bottom : ℕ) (blocks : List Block) (top mark : ℕ)
    → bottom ≤ mark
    → Stacked bottom blocks top
    → Stacked bottom (below mark blocks) mark
unfolding Stacked below
Stacked-below bottom [] top mark l h = l
Stacked-below bottom (b ∷ blocks) top mark l (e, h) =
    elim (Bool-cases (leb (b.address + b.size) mark)) [
      | inl f ↦
          let both : (b.address + b.size ≤ mark) × Stacked bottom blocks b.address =
            (ground (arith, f), h) in
          subst (λ t. Stacked bottom (if t then b ∷ blocks else below mark blocks) mark) (sym f)
            both
      | inr f ↦ rw f (Stacked-below bottom blocks b.address mark l h)
    ]

pub within :
    (bottom : ℕ) (blocks : List Block) (top i : ℕ) (b : Block)
    → Stacked bottom blocks top
    → get_elem? blocks i ≡ some b
    → (bottom ≤ b.address) × (b.address + b.size ≤ top)
unfolding Stacked
within bottom [] top i b h at = absurd (cc at)
within bottom (x ∷ blocks) top zero b (e, h) at =
    let same : x ≡ b = cc at in
    subst (λ y. (bottom ≤ y.address) × (y.address + y.size ≤ top)) same
      (omega (arith, Stacked-bottom bottom blocks x.address h), e)
within bottom (x ∷ blocks) top (suc i) b (e, h) at =
    let (l, l') = within bottom blocks x.address i b h at in (l, omega arith)

pub ordered :
    (bottom : ℕ) (blocks : List Block) (top i j : ℕ) (b c : Block)
    → Stacked bottom blocks top
    → i < j
    → get_elem? blocks i ≡ some b
    → get_elem? blocks j ≡ some c
    → c.address + c.size ≤ b.address
unfolding Stacked
ordered bottom [] top i j b c h l at at' = absurd (cc at)
ordered bottom (x ∷ blocks) top i zero b c h l at at' = absurd (omega arith)
ordered bottom (x ∷ blocks) top zero (suc j) b c (e, h) l at at' =
    let same : x ≡ b = cc at in
    subst (λ y. c.address + c.size ≤ y.address) same (within bottom blocks x.address j c h at').1
ordered bottom (x ∷ blocks) top (suc i) (suc j) b c (e, h) l at at' =
    ordered bottom blocks x.address i j b c h (omega arith) at at'
