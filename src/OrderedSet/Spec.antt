-- ===== src/OrderedSet/Spec.antt =====
-- What the ordered set promises: a strictly increasing list, with insertion, deletion and lookup
-- by the comparison.
use just_library.Base.{◌≡◌, ◌∙◌, Bool, true, false, Option, none, some, List, [], ◌∷◌, ◌++◌, arith}
use just_library.Base.Int.{ℤ}
use just_library.OrderedSet.{less, same, more, order}

-- What the program asks of a comparison.
pub record IsOrder {A : Type 0} (compare : A → A → ℤ) : Type 0 where
  pub order_refl : (a : A) → order compare a a ≡ same
  pub less_of_more : (a b : A) → order compare a b ≡ more → order compare b a ≡ less
  pub more_of_less : (a b : A) → order compare a b ≡ less → order compare b a ≡ more
  pub less_trans :
      (a b c : A) → order compare a b ≡ less → order compare b c ≡ less → order compare a c ≡ less
  pub same_left : (a b c : A) → order compare a b ≡ same → order compare a c ≡ order compare b c

module _ {A : Type 0} (compare : A → A → ℤ) where
  -- every value of the list comes before `x`; after `x`
  abbrev pub AllBefore : List A → A → Type 0
  AllBefore [] x = Unit
  AllBefore (y ∷ ys) x = (order compare y x ≡ less) × AllBefore ys x

  abbrev pub AllAfter : A → List A → Type 0
  AllAfter x [] = Unit
  AllAfter x (y ∷ ys) = (order compare x y ≡ less) × AllAfter x ys

  -- strictly increasing
  abbrev pub IsSorted : List A → Type 0
  IsSorted [] = Unit
  IsSorted (y ∷ ys) = AllAfter y ys × IsSorted ys

  -- the list with `x` put in its place, unless an equal value is there; and whether it was put
  unfoldable pub list_insert : A → List A → List A × Bool
  list_insert x [] = (x ∷ [], true)
  list_insert x (y ∷ ys) = elim (order compare x y) [
    | less ↦ (x ∷ y ∷ ys, true)
    | same ↦ (y ∷ ys, false)
    | more ↦ let (zs, done) = list_insert x ys in (y ∷ zs, done)
  ]

  -- the list without the value equal to `x`; and whether there was one
  unfoldable pub list_remove : A → List A → List A × Bool
  list_remove x [] = ([], false)
  list_remove x (y ∷ ys) = elim (order compare x y) [
    | less ↦ (y ∷ ys, false)
    | same ↦ (ys, true)
    | more ↦ let (zs, done) = list_remove x ys in (y ∷ zs, done)
  ]

  unfoldable pub list_find : A → List A → Option A
  list_find x [] = none
  list_find x (y ∷ ys) = elim (order compare x y) [
    | less ↦ none
    | same ↦ some y
    | more ↦ list_find x ys
  ]

module _ {A : Type 0} {compare : A → A → ℤ} (o : IsOrder compare) where
  -- A sorted list around `v`.
  pub Sorted-left :
      (l : List A) (v : A) (r : List A) → IsSorted compare (l ++ v ∷ r) → AllBefore compare l v
  Sorted-left [] v r s = tt
  Sorted-left (y ∷ l) v r s = (middle l s.0, Sorted-left l v r s.1)
    where
      middle : (l : List A) → AllAfter compare y (l ++ v ∷ r) → order compare y v ≡ less
      middle [] a = a.0
      middle (z ∷ l) a = middle l a.1

  pub Sorted-append_left : (l r : List A) → IsSorted compare (l ++ r) → IsSorted compare l
  Sorted-append_left [] r s = tt
  Sorted-append_left (y ∷ l) r s = (prefix l s.0, Sorted-append_left l r s.1)
    where
      prefix : (l : List A) → AllAfter compare y (l ++ r) → AllAfter compare y l
      prefix [] a = tt
      prefix (z ∷ l) a = (a.0, prefix l a.1)

  pub Sorted-append_right : (l r : List A) → IsSorted compare (l ++ r) → IsSorted compare r
  Sorted-append_right [] r s = s
  Sorted-append_right (y ∷ l) r s = Sorted-append_right l r s.1

  -- A value beyond `v` is beyond all that comes before `v`.
  beyond :
      (x y v : A) → order compare y v ≡ less → order compare x v ≡ more → order compare x y ≡ more
  beyond x y v h k = o.more_of_less y x (o.less_trans y v x h (o.less_of_more x v k))

  beyond_same :
      (x y v : A) → order compare y v ≡ less → order compare x v ≡ same → order compare x y ≡ more
  beyond_same x y v h k = o.same_left x v y k ∙ o.more_of_less y v h

  -- The operations meet the shape of a search tree: they go on in the part where the value belongs.
  module _ (x v : A) (r : List A) where
    pub list_insert-less :
        (l : List A)
        → order compare x v ≡ less
        → list_insert compare x (l ++ v ∷ r)
          ≡ ((list_insert compare x l).0 ++ v ∷ r, (list_insert compare x l).1)
    unfolding list_insert
    list_insert-less [] h = ground arith
    list_insert-less (y ∷ l) h = ground (arith, list_insert-less l h)

    pub list_insert-more :
        (l : List A)
        → AllBefore compare l v
        → order compare x v ≡ more
        → list_insert compare x (l ++ v ∷ r)
          ≡ (l ++ v ∷ (list_insert compare x r).0, (list_insert compare x r).1)
    unfolding list_insert
    list_insert-more [] a h = ground arith
    list_insert-more (y ∷ l) a h = ground (arith, list_insert-more l a.1 h, beyond x y v a.0 h)

    pub list_insert-same :
        (l : List A)
        → AllBefore compare l v
        → order compare x v ≡ same
        → list_insert compare x (l ++ v ∷ r) ≡ (l ++ v ∷ r, false)
    unfolding list_insert
    list_insert-same [] a h = ground arith
    list_insert-same (y ∷ l) a h = ground (arith, list_insert-same l a.1 h, beyond_same x y v a.0 h)

    pub list_remove-less :
        (l : List A)
        → order compare x v ≡ less
        → list_remove compare x (l ++ v ∷ r)
          ≡ ((list_remove compare x l).0 ++ v ∷ r, (list_remove compare x l).1)
    unfolding list_remove
    list_remove-less [] h = ground arith
    list_remove-less (y ∷ l) h = ground (arith, list_remove-less l h)

    pub list_remove-more :
        (l : List A)
        → AllBefore compare l v
        → order compare x v ≡ more
        → list_remove compare x (l ++ v ∷ r)
          ≡ (l ++ v ∷ (list_remove compare x r).0, (list_remove compare x r).1)
    unfolding list_remove
    list_remove-more [] a h = ground arith
    list_remove-more (y ∷ l) a h = ground (arith, list_remove-more l a.1 h, beyond x y v a.0 h)

    pub list_remove-same :
        (l : List A)
        → AllBefore compare l v
        → order compare x v ≡ same
        → list_remove compare x (l ++ v ∷ r) ≡ (l ++ r, true)
    unfolding list_remove
    list_remove-same [] a h = ground arith
    list_remove-same (y ∷ l) a h = ground (arith, list_remove-same l a.1 h, beyond_same x y v a.0 h)

    pub list_find-less :
        (l : List A)
        → order compare x v ≡ less
        → list_find compare x (l ++ v ∷ r) ≡ list_find compare x l
    unfolding list_find
    list_find-less [] h = ground arith
    list_find-less (y ∷ l) h = ground (arith, list_find-less l h)

    pub list_find-more :
        (l : List A)
        → AllBefore compare l v
        → order compare x v ≡ more
        → list_find compare x (l ++ v ∷ r) ≡ list_find compare x r
    unfolding list_find
    list_find-more [] a h = ground arith
    list_find-more (y ∷ l) a h = ground (arith, list_find-more l a.1 h, beyond x y v a.0 h)

    pub list_find-same :
        (l : List A)
        → AllBefore compare l v
        → order compare x v ≡ same
        → list_find compare x (l ++ v ∷ r) ≡ some v
    unfolding list_find
    list_find-same [] a h = ground arith
    list_find-same (y ∷ l) a h = ground (arith, list_find-same l a.1 h, beyond_same x y v a.0 h)

  -- The operations keep a list sorted.
  AllAfter-list_insert :
      (y x : A) (l : List A)
      → order compare y x ≡ less
      → AllAfter compare y l
      → AllAfter compare y (list_insert compare x l).0
  unfolding list_insert
  AllAfter-list_insert y x [] h a = (h, tt)
  AllAfter-list_insert y x (z ∷ l) h a = ground (arith, AllAfter-list_insert y x l h a.1)

  AllAfter-trans :
      (x y : A) (l : List A)
      → order compare x y ≡ less
      → AllAfter compare y l
      → AllAfter compare x l
  AllAfter-trans x y [] h a = tt
  AllAfter-trans x y (z ∷ l) h a = (o.less_trans x y z h a.0, AllAfter-trans x y l h a.1)

  pub list_insert-IsSorted :
      (x : A) (l : List A) → IsSorted compare l → IsSorted compare (list_insert compare x l).0
  unfolding list_insert
  list_insert-IsSorted x [] s = (tt, tt)
  list_insert-IsSorted x (y ∷ l) s = ground (
    arith,
    list_insert-IsSorted x l s.1,
    AllAfter-list_insert y x l,
    AllAfter-trans x y l,
    o.less_of_more x y,
  )

  AllAfter-list_remove :
      (y x : A) (l : List A) → AllAfter compare y l → AllAfter compare y (list_remove compare x l).0
  unfolding list_remove
  AllAfter-list_remove y x [] a = tt
  AllAfter-list_remove y x (z ∷ l) a = ground (arith, AllAfter-list_remove y x l a.1)

  pub list_remove-IsSorted :
      (x : A) (l : List A) → IsSorted compare l → IsSorted compare (list_remove compare x l).0
  unfolding list_remove
  list_remove-IsSorted x [] s = tt
  list_remove-IsSorted x (y ∷ l) s =
      ground (arith, list_remove-IsSorted x l s.1, AllAfter-list_remove y x l s.0)
