-- ===== src/Lease/Stored.antt =====
-- The stored leases as a set without repeated subnets.
use flannel_rust.Prelude.{
  ◌≡◌, refl, sym, ap, Bool, true, false, not, none, some, arith, inl, inr, ◌⊎◌, List, [], ◌∷◌, All,
  any, filter, any-filter-false, Bool-cases, if◌then◌else◌,
}
use flannel_rust.Lease.{Lease, take_match}
use flannel_rust.Lease.Key.{IsUniform, same, stored_match-same, same_comm, same_congr}

module _ (v4 v6 : Bool) where
  -- No two leases of the list have the same subnet.
  abbrev pub IsDistinct : List Lease → Type 0
  IsDistinct [] = Unit
  IsDistinct (l ∷ ls) = (any (λ m. same v4 v6 l m) ls ≡ false) × IsDistinct ls

  abbrev pub Uniform : List Lease → Type 0
  Uniform = All (IsUniform v4 v6)

  -- The stored leases that do not match `nl`.
  abbrev pub others : List Lease → Lease → List Lease
  others ls nl = filter (λ l. not (same v4 v6 l nl)) ls

  abbrev pub holds : List Lease → Lease → Bool
  holds ls nl = any (λ l. same v4 v6 l nl) ls

  pub others_all : (ls : List Lease) (nl : Lease) → holds ls nl ≡ false → others ls nl ≡ ls
  others_all [] nl h = refl
  others_all (l ∷ ls) nl h = ground (arith, others_all ls nl)

  -- With distinct subnets, what matches `l` does not match the rest.
  rest_apart :
      (l nl : Lease) (ls : List Lease)
      → same v4 v6 l nl ≡ true
      → any (λ m. same v4 v6 l m) ls ≡ false
      → holds ls nl ≡ false
  rest_apart l nl [] e h = refl
  rest_apart l nl (m ∷ ls) e h =
      ground (arith, rest_apart l nl ls e, same_congr v4 v6 l nl m, same_comm v4 v6 nl m)

  -- Taking out the first match takes out the only one.
  pub take_match-others :
      (ls : List Lease) (nl : Lease)
      → Uniform ls
      → IsDistinct ls
      → ((holds ls nl ≡ false) × (take_match ls nl ≡ none))
        ⊎ ((found : Lease) × (same v4 v6 found nl ≡ true)
            × (holds ls nl ≡ true)
            × (take_match ls nl ≡ some (found, others ls nl)))
  unfolding take_match
  take_match-others [] nl u d = inl (refl, refl)
  take_match-others (l ∷ ls) nl u d =
      let head = stored_match-same v4 v6 l nl u.0 in
      let ih = take_match-others ls nl u.1 d.1 in
      elim (Bool-cases (same v4 v6 l nl)) [
        | inl e ↦
            let rest = others_all ls nl (rest_apart l nl ls e d.0) in
            inr (l, e, rw e refl, rw (head, e) (ap (λ (t : List Lease). some (l, t)) (sym rest)))
        | inr n ↦ elim ih [
          | inl (h, t) ↦ inl (rw (n, h) refl, rw (head, n, t) refl)
          | inr (found, m, h, t) ↦ inr (found, m, rw (n, h) refl, rw (head, n, t) refl)
        ]
      ]

  pub IsDistinct-filter :
      (p : Lease → Bool) (ls : List Lease) → IsDistinct ls → IsDistinct (filter p ls)
  IsDistinct-filter p [] d = tt
  IsDistinct-filter p (l ∷ ls) d =
      keep (p l) (IsDistinct-filter p ls d.1) (any-filter-false (λ m. same v4 v6 l m) p ls d.0)
    where
      keep :
          (b : Bool)
          → IsDistinct (filter p ls)
          → any (λ m. same v4 v6 l m) (filter p ls) ≡ false
          → IsDistinct (if b then l ∷ filter p ls else filter p ls)
      keep true t h = (h, t)
      keep false t h = t

  pub any_congr :
      (l nl : Lease) (ls : List Lease)
      → same v4 v6 l nl ≡ true
      → any (λ m. same v4 v6 l m) ls ≡ any (λ m. same v4 v6 nl m) ls
  any_congr l nl [] e = refl
  any_congr l nl (m ∷ ls) e = ground (arith, any_congr l nl ls e, same_congr v4 v6 l nl m)
