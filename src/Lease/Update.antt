-- ===== src/Lease/Update.antt =====
-- `update` refines a map from subnets to leases.
use mathlib.Core.List.{append_assoc, append-nil}
use flannel_rust.Prelude.{
  ◌≡◌, refl, sym, ap, ◌∙◌, Bool, true, false, Option, none, some, arith, inl, inr, ◌⊎◌, List, [],
  ◌∷◌, ◌++◌, All, any, All-filter, All-append, Bool-cases, if◌then◌else◌,
}
use flannel_rust.Lease.{
  Lease, Event, EventType, LeaseWatcher, added, removed, event, replace_match, add, remove,
  apply_event, update_step, update_loop, update,
}
use flannel_rust.Lease.Key.{
  IsUniform, same, stored_match-same, own_match-same, same_comm, same_congr,
}
use flannel_rust.Lease.Stored.{
  any_congr, IsDistinct, Uniform, others, others_all, take_match-others, IsDistinct-filter,
}

module _ (v4 v6 : Bool) where
  -- The lease that a list holds for the subnet of `q`.
  pub lookup : List Lease → Lease → Option Lease
  lookup [] q = none
  lookup (l ∷ ls) q = if same v4 v6 l q then some l else lookup ls q

  -- The abstract effect of one event on the lease held for the subnet of `q`.
  abbrev pub effect : EventType → Lease → Option Lease
  effect added l = some l
  effect removed l = none

  -- The abstract effect of a batch: the last event on the subnet decides; the own subnet is not
  -- touched.
  abbrev pub effects : Lease → Lease → Option Lease → List Event → Option Lease
  effects own q held [] = held
  effects own q held (e ∷ es) =
      effects own q
        (if same v4 v6 own e.lease
          then held
          else if same v4 v6 e.lease q
          then effect e.event_type e.lease
          else held)
        es

  put : List Lease → Lease → List Lease
  put [] nl = nl ∷ []
  put (l ∷ ls) nl = if same v4 v6 l nl then nl ∷ ls else l ∷ put ls nl

  replace_match-put :
      (ls : List Lease) (nl : Lease)
      → Uniform v4 v6 ls
      → ((replace_match ls nl ≡ none) × (put ls nl ≡ ls ++ (nl ∷ [])))
        ⊎ (replace_match ls nl ≡ some (put ls nl))
  unfolding replace_match put
  replace_match-put [] nl u = inl (refl, refl)
  replace_match-put (l ∷ ls) nl u =
      let head = stored_match-same v4 v6 l nl u.0 in
      let ih = replace_match-put ls nl u.1 in
      elim (Bool-cases (same v4 v6 l nl)) [
        | inl e ↦ inr (rw (head, e) refl)
        | inr n ↦ elim ih [
          | inl (h, t) ↦ inl (rw (head, n, h) refl, rw (n, t) refl)
          | inr h ↦ inr (rw (head, n, h) refl)
        ]
      ]

  add-put :
      (ls : List Lease) (nl : Lease) → Uniform v4 v6 ls → add ls nl ≡ (put ls nl, event added nl)
  unfolding add
  add-put ls nl u = elim (replace_match-put ls nl u) [
    | inl (h, t) ↦ rw (h, t, add) refl
    | inr h ↦ rw (h, add) refl
  ]

  remove-others :
      (ls : List Lease) (nl : Lease)
      → Uniform v4 v6 ls
      → IsDistinct v4 v6 ls
      → (remove ls nl).0 ≡ others v4 v6 ls nl
  unfolding remove
  remove-others ls nl u d = elim (take_match-others v4 v6 ls nl u d) [
    | inl (h, t) ↦ rw (t, remove, others_all v4 v6 ls nl h) refl
    | inr (found, m, h, t) ↦ rw (t, remove) refl
  ]

  lookup-put :
      (ls : List Lease) (nl q : Lease)
      → lookup (put ls nl) q ≡ (if same v4 v6 nl q then some nl else lookup ls q)
  unfolding lookup put
  lookup-put [] nl q = refl
  lookup-put (l ∷ ls) nl q = ground (
    arith,
    lookup-put ls nl q,
    same_congr v4 v6 l nl q,
    same_congr v4 v6 l q nl,
    same_comm v4 v6 q nl,
  )

  lookup-others :
      (ls : List Lease) (nl q : Lease)
      → lookup (others v4 v6 ls nl) q ≡ (if same v4 v6 nl q then none else lookup ls q)
  unfolding lookup
  lookup-others [] nl q = ground arith
  lookup-others (l ∷ ls) nl q = ground (
    arith,
    lookup-others ls nl q,
    same_congr v4 v6 l nl q,
    same_congr v4 v6 l q nl,
    same_comm v4 v6 q nl,
  )

  Uniform-put :
      (ls : List Lease) (nl : Lease)
      → Uniform v4 v6 ls
      → IsUniform v4 v6 nl
      → Uniform v4 v6 (put ls nl)
  unfolding put
  Uniform-put [] nl u h = (h, tt)
  Uniform-put (l ∷ ls) nl u h = branch (same v4 v6 l nl) (Uniform-put ls nl u.1 h)
    where
      branch :
          (b : Bool)
          → Uniform v4 v6 (put ls nl)
          → Uniform v4 v6 (if b then nl ∷ ls else l ∷ put ls nl)
      branch true t = (h, u.1)
      branch false t = (u.0, t)

  any-put :
      (m nl : Lease) (ls : List Lease)
      → any (λ x. same v4 v6 m x) ls ≡ false
      → same v4 v6 m nl ≡ false
      → any (λ x. same v4 v6 m x) (put ls nl) ≡ false
  unfolding put
  any-put m nl [] h n = rw n refl
  any-put m nl (l ∷ ls) h n = ground (arith, any-put m nl ls)

  IsDistinct-put :
      (ls : List Lease) (nl : Lease) → IsDistinct v4 v6 ls → IsDistinct v4 v6 (put ls nl)
  unfolding put
  IsDistinct-put [] nl d = (refl, tt)
  IsDistinct-put (l ∷ ls) nl d =
      let ih = IsDistinct-put ls nl d.1 in
      elim (Bool-cases (same v4 v6 l nl)) [
        | inl e ↦ rw e (sym (any_congr v4 v6 l nl ls e) ∙ d.0, d.1)
        | inr n ↦ rw n (any-put l nl ls d.0 n, ih)
      ]

  -- What is known of one step: the abstract effect on every subnet, and the reported events.
  abbrev StepFacts : Lease → List Lease → Event → List Lease → List Event → Type 0
  StepFacts own ls e ls' out =
      Uniform v4 v6 ls'
      × IsDistinct v4 v6 ls'
      × All (λ x. same v4 v6 own x.lease ≡ false) out
      × ((q : Lease)
          → lookup ls' q ≡ (
              if same v4 v6 own e.lease
              then lookup ls q
              else if same v4 v6 e.lease q
              then effect e.event_type e.lease
              else lookup ls q))

  remove-apart :
      (own : Lease) (ls : List Lease) (nl : Lease)
      → Uniform v4 v6 ls
      → IsDistinct v4 v6 ls
      → same v4 v6 own nl ≡ false
      → same v4 v6 own ((remove ls nl).1).lease ≡ false
  unfolding remove
  remove-apart own ls nl u d n = elim (take_match-others v4 v6 ls nl u d) [
    | inl (h, t) ↦ rw (t, remove) n
    | inr (found, m, h, t) ↦
        rw (t, remove)
          (same_comm v4 v6 own found ∙ same_congr v4 v6 found nl own m ∙ same_comm v4 v6 nl own ∙ n)
  ]

  step_lem :
      (own : Lease) (ls : List Lease) (batch : List Event) (event_type : EventType) (lease : Lease)
      → Uniform v4 v6 ls
      → IsDistinct v4 v6 ls
      → IsUniform v4 v6 lease
      → (ls' : List Lease) × (out : List Event) × (update_step own
            (ls, batch)
            (event event_type lease)
          ≡ (ls', batch ++ out))
        × StepFacts own ls (event event_type lease) ls' out
  unfolding update_step apply_event
  step_lem own ls batch added lease u d h =
      let own_test = own_match-same v4 v6 own lease h in
      elim (Bool-cases (same v4 v6 own lease)) [
        | inl y ↦ (ls, [], rw (own_test, y, append-nil) refl, (u, d, tt, λ q. rw y refl))
        | inr n ↦ (
          put ls lease,
          event added lease ∷ [],
          rw (own_test, n, add-put ls lease u) refl,
          (
            Uniform-put ls lease u h,
            IsDistinct-put ls lease d,
            (n, tt),
            λ q. rw n (lookup-put ls lease q),
          ),
        )
      ]
  step_lem own ls batch removed lease u d h =
      let own_test = own_match-same v4 v6 own lease h in
      elim (Bool-cases (same v4 v6 own lease)) [
        | inl y ↦ (ls, [], rw (own_test, y, append-nil) refl, (u, d, tt, λ q. rw y refl))
        | inr n ↦ (
          others v4 v6 ls lease,
          (remove ls lease).1 ∷ [],
          rw (own_test, n, ← remove-others ls lease u d) refl,
          (
            All-filter (IsUniform v4 v6) _ ls u,
            IsDistinct-filter v4 v6 _ ls d,
            (remove-apart own ls lease u d n, tt),
            λ q. rw n (lookup-others ls lease q),
          ),
        )
      ]

  loop_lem :
      (own : Lease) (es : List Event) (ls : List Lease) (batch : List Event)
      → All (λ e. IsUniform v4 v6 e.lease) es
      → Uniform v4 v6 ls
      → IsDistinct v4 v6 ls
      → (ls' : List Lease) × (out : List Event) × (update_loop own (ls, batch) es
          ≡ (ls', batch ++ out))
        × Uniform v4 v6 ls'
        × IsDistinct v4 v6 ls'
        × All (λ x. same v4 v6 own x.lease ≡ false) out
        × ((q : Lease) → lookup ls' q ≡ effects own q (lookup ls q) es)
  unfolding update_loop
  loop_lem own [] ls batch h u d = (ls, [], rw append-nil refl, u, d, tt, λ q. refl)
  loop_lem own (e ∷ es) ls batch h u d =
      let (ls1, out1, run1, (u1, d1, apart1, look1)) =
        step_lem own ls batch e.event_type e.lease u d h.0 in
      let (ls2, out2, run2, u2, d2, apart2, look2) =
        loop_lem own es ls1 (batch ++ out1) h.1 u1 d1 in
      (
        ls2,
        out1 ++ out2,
        rw run1 (run2 ∙ rw append_assoc refl),
        u2,
        d2,
        All-append (λ x. same v4 v6 own x.lease ≡ false) out1 out2 apart1 apart2,
        λ q. look2 q ∙ ap (λ t. effects own q t es) (look1 q),
      )

  -- On stored leases and events of one set of flags, the stored leases with distinct subnets, an
  -- update never fails and its effect on the lease held for any subnet is that of the events one
  -- after the other: an addition stores its lease, a removal clears it, and events on the own
  -- subnet do nothing. The stored leases keep their flags and stay distinct, the own lease is
  -- untouched, and no reported event is on the own subnet.
  pub update_lem :
      (w : LeaseWatcher) (own : Lease) (events : List Event)
      → w.own_lease ≡ some own
      → All (λ e. IsUniform v4 v6 e.lease) events
      → Uniform v4 v6 w.leases
      → IsDistinct v4 v6 w.leases
      → (w' : LeaseWatcher) × (batch : List Event) × (update w events ≡ some (w', batch))
        × (w'.own_lease ≡ some own)
        × Uniform v4 v6 w'.leases
        × IsDistinct v4 v6 w'.leases
        × All (λ x. same v4 v6 own x.lease ≡ false) batch
        × ((q : Lease) → lookup w'.leases q ≡ effects own q (lookup w.leases q) events)
  unfolding update
  update_lem w own events e h u d =
      let (ls, out, run, u', d', apart, look) = loop_lem own events w.leases [] h u d in
      (record w { leases = ls }, out, rw (e, run) refl, e, u', d', apart, look)
