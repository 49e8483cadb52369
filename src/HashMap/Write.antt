-- ===== src/HashMap/Write.antt =====
-- Writing an entry, and burying one, in a table whose entries are placed.
use just_library.Base.{
  ℕ, ◌<◌, ◌≡◌, sym, ◌∙◌, subst, Bool, some, List, length, get_elem?, set, inl, inr,
}
use just_library.HashMap.{Slot, occupied, tombstone}
use just_library.HashMap.Slots.{Reached, Reached-set, written_cases, IsKeyed, same_sym, Placed, Has}

module _ {K V : Type 0} {hash : K → ℕ} {same : K → K → Bool} (keyed : IsKeyed hash same) where
  module _ (ss : List (Slot K V)) (p : Placed hash same ss) (i : ℕ) (l : i < length ss) where
    -- An entry in a slot that its probe reaches, where no other slot has an equal key.
    pub Placed-set :
        (key : K) (value : V)
        → Reached ss (hash key) i
        → ((j : ℕ) (v : V) → Has hash same ss key j v → j ≡ i)
        → Placed hash same (set ss i (occupied (hash key) key value))
    Placed-set key value reach others = record {
      hashed = λ j h k v e. elim (written_cases ss i j (occupied (hash key) key value) l) [
        | inl (at, w) ↦
            let f : some (occupied (hash key) key value) ≡ some (occupied h k v) = sym w ∙ e in cc f
        | inr (at, w) ↦ p.hashed j h k v (sym w ∙ e)
      ];
      reached = λ j h k v e. elim (written_cases ss i j (occupied (hash key) key value) l) [
        | inl (at, w) ↦
            let f : some (occupied (hash key) key value) ≡ some (occupied h k v) = sym w ∙ e in
            let same_hash : hash key ≡ h = cc f in
            Reached-set ss i _ h j l tt (subst (λ x. Reached ss x j) same_hash (rw at reach))
        | inr (at, w) ↦ Reached-set ss i _ h j l tt (p.reached j h k v (sym w ∙ e))
      ];
      unique = λ a b h h' k k' v v' e e' s.
          elim (written_cases ss i a (occupied (hash key) key value) l) [
            | inl (at, w) ↦ elim (written_cases ss i b (occupied (hash key) key value) l) [
              | inl (at', w') ↦ at ∙ sym at'
              | inr (at', w') ↦
                  let f : some (occupied (hash key) key value) ≡ some (occupied h k v) =
                    sym w ∙ e in
                  let key_k : key ≡ k = cc f in
                  at ∙ sym (others b v' (h', k', sym w' ∙ e', same_sym keyed key k' (rw key_k s)))
            ]
            | inr (at, w) ↦ elim (written_cases ss i b (occupied (hash key) key value) l) [
              | inl (at', w') ↦
                  let f : some (occupied (hash key) key value) ≡ some (occupied h' k' v') =
                    sym w' ∙ e' in
                  let key_k : key ≡ k' = cc f in others a v (h, k, sym w ∙ e, rw key_k s) ∙ sym at'
              | inr (at', w') ↦ p.unique a b h h' k k' v v' (sym w ∙ e) (sym w' ∙ e') s
            ]
          ];
    }

    pub Placed-bury : (h : ℕ) (k : K) (v : V) → Placed hash same (set ss i (tombstone h k v))
    Placed-bury h₀ k₀ v₀ = record {
      hashed = λ j h k v e. p.hashed j h k v (old j h k v e);
      reached = λ j h k v e. Reached-set ss i _ h j l tt (p.reached j h k v (old j h k v e));
      unique = λ a b h h' k k' v v' e e' s.
          p.unique a b h h' k k' v v' (old a h k v e) (old b h' k' v' e') s;
    }
      where
        old :
            (j h : ℕ) (k : K) (v : V)
            → get_elem? (set ss i (tombstone h₀ k₀ v₀)) j ≡ some (occupied h k v)
            → get_elem? ss j ≡ some (occupied h k v)
        old j h k v e = elim (written_cases ss i j (tombstone h₀ k₀ v₀) l) [
          | inl (at, w) ↦
              let f : some (tombstone h₀ k₀ v₀) ≡ some (occupied h k v) = sym w ∙ e in absurd (cc f)
          | inr (at, w) ↦ sym w ∙ e
        ]
