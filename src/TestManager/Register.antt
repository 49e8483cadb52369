-- ===== src/TestManager/Register.antt =====
-- Which tests the groups hold.
use just_library.Base.{
  ℕ, zero, suc, ◌≤◌, ◌<◌, ◌≡◌, ◌≢◌, refl, sym, ap, subst, ◌∙◌, true, false, ◌⊎◌, inl, inr, Option,
  none, some, List, [], ◌∷◌, ◌++◌, length, length-append, length-set, set, get_elem?,
  get_elem?-set_self, get_elem?-set_ne, replicate, ◌==◌, ==_iff, ltb, ltb→lt, Bool-cases,
  Option-cases, append-nil, append_assoc, arith,
}
use just_library.TestManager.{
  TestEntry, TestManager, tests_of, raised, group_at, empty_manager, test_register, max_test_groups,
  max_tests_per_group,
}

highest_of : (a b : ℕ) → (a ≤ raised a b) × (b ≤ raised a b) × ((raised a b ≡ a) ⊎ (raised a b ≡ b))
highest_of a b = elim (Bool-cases (ltb a b)) [
  | inl e ↦
      let p : raised a b ≡ b = ap (λ t. elim t [ true ↦ b | false ↦ a ]) e in
      (omega (arith, p, ltb→lt a b e), omega (arith, p), inr p)
  | inr e ↦
      let p : raised a b ≡ a = ap (λ t. elim t [ true ↦ b | false ↦ a ]) e in
      (omega (arith, p), ground (arith, p, e), inl p)
]

module _ {Test : Type 0} where
  -- The tests that were registered for a group, in their order.
  unfoldable pub wanted : ℕ → List (TestEntry Test × ℕ) → List (TestEntry Test)
  wanted g [] = []
  wanted g ((entry, group_id) ∷ calls) =
      let rest = wanted g calls in elim (g == group_id) [ true ↦ entry ∷ rest | false ↦ rest ]

  -- `justTestRegister` for one call after the other.
  unfoldable pub register_all :
      TestManager Test → List (TestEntry Test × ℕ) → Option (TestManager Test)
  register_all m [] = some m
  register_all m ((entry, group_id) ∷ calls) = elim (test_register m entry group_id) [
    | none ↦ none
    | some m' ↦ register_all m' calls
  ]

  wanted-append :
      (g : ℕ) (xs ys : List (TestEntry Test × ℕ)) → wanted g (xs ++ ys) ≡ wanted g xs ++ wanted g ys
  unfolding wanted
  wanted-append g [] ys = refl
  wanted-append g ((entry, group_id) ∷ xs) ys = elim (Bool-cases (g == group_id)) [
    | inl e ↦ rw (wanted, e) (ap (λ t. entry ∷ t) (wanted-append g xs ys))
    | inr e ↦ rw (wanted, e) (wanted-append g xs ys)
  ]

  -- The groups hold what was registered.
  pub record Holds (m : TestManager Test) (calls : List (TestEntry Test × ℕ)) : Type 0 where
    pub groups : length m.test_groups ≡ max_test_groups
    pub held : (g : ℕ) → group_at m g ≡ wanted g calls
    pub bounded : (g : ℕ) → length (wanted g calls) ≤ max_tests_per_group
    pub highest : m.max_group_id < max_test_groups
    pub beyond : (g : ℕ) → m.max_group_id < g → wanted g calls ≡ []

  empty_manager-Holds : Holds empty_manager []
  unfolding wanted
  empty_manager-Holds = record {
    groups = refl;
    held = λ g. nothing 32 g;
    bounded = λ g. omega arith;
    highest = omega arith;
    beyond = λ g h. refl;
  }
    where
      nothing : (n g : ℕ) → tests_of {Test = Test} (get_elem? (replicate n []) g) ≡ []
      nothing zero g = refl
      nothing (suc n) zero = refl
      nothing (suc n) (suc g) = nothing n g

  group_at-set_self :
      (m : TestManager Test) (g k : ℕ) (group : List (TestEntry Test))
      → g < length m.test_groups
      → group_at (record { test_groups = set m.test_groups g group; max_group_id = k }) g ≡ group
  group_at-set_self m g k group l = ap tests_of (get_elem?-set_self m.test_groups g group l)

  group_at-set_ne :
      (m : TestManager Test) (g h k : ℕ) (group : List (TestEntry Test))
      → g ≢ h
      → group_at (record { test_groups = set m.test_groups g group; max_group_id = k }) h
        ≡ group_at m h
  group_at-set_ne m g h k group d = ap tests_of (get_elem?-set_ne m.test_groups g h group d)

  wanted-last :
      (g group_id : ℕ) (calls : List (TestEntry Test × ℕ)) (entry : TestEntry Test)
      → wanted g (calls ++ (entry, group_id) ∷ [])
        ≡ wanted g calls ++ elim (g == group_id) [ true ↦ entry ∷ [] | false ↦ [] ]
  unfolding wanted
  wanted-last g group_id calls entry = wanted-append g calls ((entry, group_id) ∷ [])

  wanted-same :
      (g group_id : ℕ) (calls : List (TestEntry Test × ℕ)) (entry : TestEntry Test)
      → (g == group_id) ≡ true
      → wanted g (calls ++ (entry, group_id) ∷ []) ≡ wanted g calls ++ entry ∷ []
  wanted-same g group_id calls entry e = wanted-last g group_id calls entry ∙ rw e refl

  wanted-other :
      (g group_id : ℕ) (calls : List (TestEntry Test × ℕ)) (entry : TestEntry Test)
      → (g == group_id) ≡ false
      → wanted g (calls ++ (entry, group_id) ∷ []) ≡ wanted g calls
  wanted-other g group_id calls entry e =
      wanted-last g group_id calls entry ∙ rw e (append-nil (wanted g calls))

  -- `justTestRegister`, when it does not abort, puts the test behind those of its group.
  register-Holds :
      (m m' : TestManager Test) (calls : List (TestEntry Test × ℕ)) (entry : TestEntry Test)
      (group_id : ℕ)
      → Holds m calls
      → test_register m entry group_id ≡ some m'
      → Holds m' (calls ++ (entry, group_id) ∷ [])
  unfolding test_register
  register-Holds m m' calls entry group_id v e = elim (Bool-cases (ltb group_id max_test_groups)) [
    | inr a ↦ let f : none ≡ some m' = rw (test_register, a) at e in absurd (cc f)
    | inl a ↦ elim (Bool-cases (ltb (length (group_at m group_id)) max_tests_per_group)) [
      | inr b ↦ let f : none ≡ some m' = rw (test_register, a, b) at e in absurd (cc f)
      | inl b ↦
          let group = group_at m group_id ++ entry ∷ [] in
          let k = raised m.max_group_id group_id in
          let m2 : TestManager Test = record {
            test_groups = set m.test_groups group_id group;
            max_group_id = k;
          } in
          let f : some m2 ≡ some m' = rw (test_register, a, b) at e in
          let same : m2 ≡ m' = cc f in
          let here = ltb→lt group_id max_test_groups a in
          let room = ltb→lt (length (group_at m group_id)) max_tests_per_group b in
          let high = highest_of m.max_group_id group_id in
          subst (λ x. Holds x (calls ++ (entry, group_id) ∷ [])) same
            (record {
              groups = length-set m.test_groups group_id group ∙ v.groups;
              held = λ g. elim (Bool-cases (g == group_id)) [
                | inl p ↦
                    let same_group = (==_iff g group_id).0 p in
                    ap (group_at m2) same_group
                    ∙ group_at-set_self m group_id k group (let n = v.groups in omega arith)
                    ∙ ap (λ t. t ++ entry ∷ []) (ap (group_at m) (sym same_group) ∙ v.held g)
                    ∙ sym (wanted-same g group_id calls entry p)
                | inr p ↦
                    group_at-set_ne m group_id g k group
                      (λ q. absurd (cc (sym p ∙ (==_iff g group_id).1 (sym q))))
                    ∙ v.held g
                    ∙ sym (wanted-other g group_id calls entry p)
              ];
              bounded = λ g. elim (Bool-cases (g == group_id)) [
                | inl p ↦
                    let same_group = (==_iff g group_id).0 p in
                    let n = ap (λ i. length (group_at m i)) same_group in
                    let n' = ap length (v.held g) in
                    rw (wanted-same g group_id calls entry p)
                      (omega (arith, length-append (wanted g calls) (entry ∷ [])))
                | inr p ↦ rw (wanted-other g group_id calls entry p) (v.bounded g)
              ];
              highest = elim high.2 [
                | inl q ↦ let n = v.highest in omega arith
                | inr q ↦ omega arith
              ];
              beyond = λ g h.
                  let n = high.0 in
                  let n' = high.1 in
                  let apart : (g == group_id) ≡ false = ground arith in
                  wanted-other g group_id calls entry apart ∙ v.beyond g (omega arith);
            })
    ]
  ]

  register_all-Holds :
      (m m' : TestManager Test) (done calls : List (TestEntry Test × ℕ))
      → Holds m done
      → register_all m calls ≡ some m'
      → Holds m' (done ++ calls)
  unfolding register_all
  register_all-Holds m m' done [] v e =
      let same : m ≡ m' = cc e in
      subst (λ calls. Holds m' calls) (sym (append-nil done)) (subst (λ x. Holds x done) same v)
  register_all-Holds m m' done ((entry, group_id) ∷ calls) v e =
      elim (Option-cases (test_register m entry group_id)) [
        | inl f ↦ let g : none ≡ some m' = rw (register_all, f) at e in absurd (cc g)
        | inr (m2, f) ↦
            let g : register_all m2 calls ≡ some m' = rw (register_all, f) at e in
            subst (Holds m') (append_assoc done ((entry, group_id) ∷ []) calls) (
              register_all-Holds m2 m' (done ++ (entry, group_id) ∷ []) calls
                (register-Holds m m2 done entry group_id v f) g)
      ]

  -- After any registrations that did not abort the groups hold what was registered.
  pub registered-Holds :
      (m : TestManager Test) (calls : List (TestEntry Test × ℕ))
      → register_all empty_manager calls ≡ some m
      → Holds m calls
  registered-Holds m calls e = register_all-Holds empty_manager m [] calls empty_manager-Holds e
