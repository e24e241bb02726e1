-- ===== src/Lease/Reset.antt =====
-- The events of a reset, as sets: what the snapshot adds, and what it no longer holds.
use mathlib.Core.List.{Memᴰ, append_assoc, append-nil}
use flannel_rust.Prelude.{
  ◌≡◌, refl, ap, ◌∙◌, subst, Bool, true, false, not, ◌&&◌, some, arith, inl, inr, List, [], ◌∷◌,
  ◌++◌, map, any, filter, filter-filter, filter_congr, filter-true, All-filter, Bool-cases,
}
use flannel_rust.Lease.{
  Lease, Event, LeaseWatcher, added, removed, event, reset_step, reset_loop, removed_events, reset,
}
use flannel_rust.Lease.Key.{IsUniform, same, own_match-same, same_congr}
use flannel_rust.Lease.Stored.{
  IsDistinct, Uniform, others, holds, others_all, take_match-others, IsDistinct-filter,
}

module _ (v4 v6 : Bool) where
  -- A lease of the snapshot that is not the own one matches `l`.
  abbrev pub is_kept : Lease → List Lease → Lease → Bool
  is_kept own snapshot l = any (λ nl. not (same v4 v6 own nl) && same v4 v6 l nl) snapshot

  -- The leases of the snapshot, but the own one, that no stored lease matches.
  abbrev pub new_leases : Lease → List Lease → List Lease → List Lease
  new_leases own stored snapshot =
      filter (λ nl. not (same v4 v6 own nl) && not (holds v4 v6 stored nl)) snapshot

  -- The stored leases that no lease of the snapshot, but the own one, matches.
  abbrev pub gone_leases : Lease → List Lease → List Lease → List Lease
  gone_leases own stored snapshot = filter (λ l. not (is_kept own snapshot l)) stored

  holds-others :
      (ls : List Lease) (nl x : Lease)
      → same v4 v6 nl x ≡ false
      → holds v4 v6 (others v4 v6 ls nl) x ≡ holds v4 v6 ls x
  holds-others [] nl x h = refl
  holds-others (l ∷ ls) nl x h = ground (arith, holds-others ls nl x h, same_congr v4 v6 l nl x)

  new_leases-others :
      (own nl : Lease) (ls snapshot : List Lease)
      → any (λ m. same v4 v6 nl m) snapshot ≡ false
      → new_leases own (others v4 v6 ls nl) snapshot ≡ new_leases own ls snapshot
  new_leases-others own nl ls [] h = refl
  new_leases-others own nl ls (x ∷ xs) h =
      ground (arith, holds-others ls nl x, new_leases-others own nl ls xs)

  gone_leases-others :
      (own nl : Lease) (ls snapshot : List Lease)
      → same v4 v6 own nl ≡ false
      → gone_leases own (others v4 v6 ls nl) snapshot ≡ gone_leases own ls (nl ∷ snapshot)
  gone_leases-others own nl ls snapshot n =
      filter-filter (λ l. not (is_kept own snapshot l)) (λ l. not (same v4 v6 l nl))
        (λ l. not (is_kept own (nl ∷ snapshot) l)) ls (λ l. ground arith)

  gone_leases-own :
      (own nl : Lease) (ls snapshot : List Lease)
      → same v4 v6 own nl ≡ true
      → gone_leases own ls (nl ∷ snapshot) ≡ gone_leases own ls snapshot
  gone_leases-own own nl ls snapshot e =
      filter_congr (λ l. not (is_kept own (nl ∷ snapshot) l)) (λ l. not (is_kept own snapshot l)) ls
        (λ l. ground arith)

  reset_loop_lem :
      (own : Lease) (snapshot ls : List Lease) (batch : List Event)
      → Uniform v4 v6 snapshot
      → IsDistinct v4 v6 snapshot
      → Uniform v4 v6 ls
      → IsDistinct v4 v6 ls
      → reset_loop own (ls, batch) snapshot
        ≡ (gone_leases own ls snapshot, batch ++ map (event added) (new_leases own ls snapshot))
  unfolding reset_loop reset_step
  reset_loop_lem own [] ls batch us ds u d = rw (filter-true ls, append-nil) refl
  reset_loop_lem own (nl ∷ snapshot) ls batch us ds u d =
      let own_test = own_match-same v4 v6 own nl us.0 in
      let taken = take_match-others v4 v6 ls nl u d in
      let rest = reset_loop_lem own snapshot ls batch us.1 ds.1 u d in
      let rest_others =
        reset_loop_lem own snapshot (others v4 v6 ls nl) batch us.1 ds.1
          (All-filter (IsUniform v4 v6) _ ls u) (IsDistinct-filter v4 v6 _ ls d) in
      let rest_added =
        reset_loop_lem own snapshot ls (batch ++ (event added nl ∷ [])) us.1 ds.1 u d in
      elim (Bool-cases (same v4 v6 own nl)) [
        | inl e ↦ rw (gone_leases-own own nl ls snapshot e, own_test, e) rest
        | inr n ↦ elim taken [
          | inl (h, t) ↦
              rw
                (
                  ← gone_leases-others own nl ls snapshot n,
                  others_all v4 v6 ls nl h,
                  own_test,
                  n,
                  h,
                  t,
                )
                (rest_added ∙ rw append_assoc refl)
          | inr (found, m, h, t) ↦
              rw
                (
                  ← gone_leases-others own nl ls snapshot n,
                  own_test,
                  n,
                  h,
                  t,
                  ← new_leases-others own nl ls snapshot ds.0,
                )
                rest_others
        ]
      ]

  removed_events-map : (ls : List Lease) → removed_events ls ≡ map (event removed) ls
  unfolding removed_events
  removed_events-map [] = refl
  removed_events-map (l ∷ ls) = rw (removed_events-map ls) refl

  -- On leases of one set of flags with distinct subnets, a reset stores the snapshot as it is. It
  -- reports as added, in the order of the snapshot, the leases that no stored lease matches, the own
  -- subnet left out; then as removed, in their order, the stored leases that no lease of the
  -- snapshot matches, the own subnet again left out of the snapshot.
  pub reset_lem :
      (w : LeaseWatcher) (own : Lease) (snapshot : List Lease)
      → w.own_lease ≡ some own
      → Uniform v4 v6 snapshot
      → IsDistinct v4 v6 snapshot
      → Uniform v4 v6 w.leases
      → IsDistinct v4 v6 w.leases
      → reset w snapshot
        ≡ some (
          record w { leases = snapshot },
          map (event added) (new_leases own w.leases snapshot)
              ++ map (event removed) (gone_leases own w.leases snapshot),
        )
  unfolding reset
  reset_lem w own snapshot e us ds u d =
      rw
        (
          e,
          reset_loop_lem own snapshot w.leases [] us ds u d,
          removed_events-map (gone_leases own w.leases snapshot),
        )
        refl

  own_not_kept :
      (own o : Lease) (snapshot : List Lease)
      → same v4 v6 own o ≡ true
      → is_kept own snapshot o ≡ false
  own_not_kept own o [] e = refl
  own_not_kept own o (nl ∷ snapshot) e =
      ground (arith, same_congr v4 v6 own o nl, own_not_kept own o snapshot e)

  mem_gone :
      (own o : Lease) (ls snapshot : List Lease)
      → same v4 v6 own o ≡ true
      → Memᴰ o ls
      → Memᴰ (event removed o) (map (event removed) (gone_leases own ls snapshot))
  mem_gone own o [] snapshot e m = elim m [ ]
  mem_gone own o (x ∷ ls) snapshot e (Memᴰ.head p) =
      let stays : is_kept own snapshot x ≡ false =
        own_not_kept own x snapshot (subst (λ (t : Lease). same v4 v6 own t ≡ true) p e) in
      rw stays (Memᴰ.head (ap (event removed) p))
  mem_gone own o (x ∷ ls) snapshot e (Memᴰ.tail m) =
      let ih = mem_gone own o ls snapshot e m in
      elim (Bool-cases (is_kept own snapshot x)) [
        | inl kept ↦ rw kept ih
        | inr stays ↦ rw stays (Memᴰ.tail ih)
      ]

  mem-append_right : {a : Event} (xs ys : List Event) → Memᴰ a ys → Memᴰ a (xs ++ ys)
  mem-append_right [] ys m = m
  mem-append_right (x ∷ xs) ys m = Memᴰ.tail (mem-append_right xs ys m)

  -- A reset never leaves out the own subnet on the side of the stored leases: under the conditions of
  -- `reset_lem`, a stored lease with the own subnet is reported as removed by every reset, also
  -- by one whose snapshot still holds that very lease.
  pub reset_own_removed :
      (w : LeaseWatcher) (own o : Lease) (snapshot : List Lease)
      → w.own_lease ≡ some own
      → Uniform v4 v6 snapshot
      → IsDistinct v4 v6 snapshot
      → Uniform v4 v6 w.leases
      → IsDistinct v4 v6 w.leases
      → Memᴰ o w.leases
      → same v4 v6 own o ≡ true
      → (batch : List Event) × (reset w snapshot ≡ some (record w { leases = snapshot }, batch))
        × Memᴰ (event removed o) batch
  reset_own_removed w own o snapshot e us ds u d m is_own =
      let adds = map (event added) (new_leases own w.leases snapshot) in
      let removes = map (event removed) (gone_leases own w.leases snapshot) in
      (
        adds ++ removes,
        reset_lem w own snapshot e us ds u d,
        mem-append_right adds removes (mem_gone own o w.leases snapshot is_own m),
      )
