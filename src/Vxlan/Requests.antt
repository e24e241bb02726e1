-- ===== src/Vxlan/Requests.antt =====
-- The requests that the parts of an event make, on a kernel that answers them.
use flannel_rust.Prelude.{
  ◌≡◌, refl, sym, ap, ◌∙◌, Bool, true, false, Option, none, some, List, [], ◌∷◌, ◌++◌, map,
  Bool-cases, inl, inr, if◌then◌else◌,
}
use flannel_rust.Prelude.Result.{Result, ok, err, err≢ok}
use flannel_rust.Lease.{EventType, added, removed}
use flannel_rust.Vxlan.{
  Entry, arp, fdb, route, Request, replace_entry, delete_entry, Answer, World, add_arp, del_arp,
  add_fdb, del_fdb,
}
use flannel_rust.Vxlan.Retry.{retry_do, retry_do-ok}
use flannel_rust.Vxlan.Events.{
  DecodeError, Part, finish, next, add_encapsulated, add_part, remove_part, try_request, add_some,
  remove_some, then_add, act, with_parts,
}
use flannel_rust.Vxlan.Tables.{Table, effects, IsKernel}

-- The entries that a part stands for.
unfoldable pub wanted : Part → List Entry
wanted p =
    if p.direct_ok
    then route p.direct_route ∷ []
    else arp p.dev.ifindex p.mac p.gw ∷ fdb p.dev.ifindex p.mac p.vtep ∷ route p.vxlan_route ∷ []

abbrev pub wanted_some : Option Part → List Entry
wanted_some none = []
wanted_some (some p) = wanted p

abbrev pub requests_for : EventType → List Entry → List Request
requests_for added es = map replace_entry es
requests_for removed es = map delete_entry es

-- The requests of an event whose parts are worked out.
abbrev pub part_requests :
    EventType → Result DecodeError (Option Part) → Result DecodeError (Option Part) → List Request
part_requests t (err e) v6 = []
part_requests t (ok p4) (err e) = []
part_requests t (ok p4) (ok p6) = requests_for t (wanted_some p4) ++ requests_for t (wanted_some p6)

module _ {K : Type 0} (w : World K) where
  -- The kernel answers each request.
  abbrev pub IsReliable : Type 0
  IsReliable = (k : K) (r : Request) → (w.execute k r).1 ≡ ok tt

  -- The kernel after some requests.
  abbrev pub run : List Request → K → K
  run [] k = k
  run (r ∷ rs) k = run rs (w.execute k r).0

  pub run-append : (rs ss : List Request) (k : K) → run (rs ++ ss) k ≡ run ss (run rs k)
  run-append [] ss k = refl
  run-append (r ∷ rs) ss k = run-append rs ss (w.execute k r).0

  next_ok :
      (x : K × Answer) (undo : K → K) (go : K → K × Bool) → x.1 ≡ ok tt → next w x undo go ≡ go x.0
  next_ok (k, ok u) undo go h = refl
  next_ok (k, err e) undo go h = absurd (err≢ok e tt h)

  finish_ok : (x : K × Answer) (undo : K → K) → x.1 ≡ ok tt → finish w x undo ≡ (x.0, true)
  finish_ok (k, ok u) undo h = refl
  finish_ok (k, err e) undo h = absurd (err≢ok e tt h)

  module _ (reliable : IsReliable) where
    retry_do-run : (r : Request) (k : K) → retry_do w r k ≡ w.execute k r
    retry_do-run r k = retry_do-ok w r k (reliable k r)

    next-run :
        (r : Request) (k : K) (undo : K → K) (go : K → K × Bool)
        → next w (retry_do w r k) undo go ≡ go (w.execute k r).0
    next-run r k undo go = rw (retry_do-run r k) (next_ok (w.execute k r) undo go (reliable k r))

    finish-run :
        (r : Request) (k : K) (undo : K → K)
        → finish w (retry_do w r k) undo ≡ ((w.execute k r).0, true)
    finish-run r k undo = rw (retry_do-run r k) (finish_ok (w.execute k r) undo (reliable k r))

    try_request-run : (r : Request) (k : K) → try_request w r k ≡ (w.execute k r).0
    try_request-run r k = ap (λ x. x.0) (retry_do-run r k)

    add_part-run :
        (retried : Bool) (p : Part) (k : K)
        → add_part w retried p k ≡ (run (map replace_entry (wanted p)) k, true)
    unfolding add_part add_encapsulated wanted add_arp add_fdb
    add_part-run retried p k = elim (Bool-cases p.direct_ok) [
      | inl e ↦ rw e (finish-run _ k _)
      | inr n ↦ rw n (next-run _ k _ _ ∙ next-run _ _ _ _ ∙ finish-run _ _ _)
    ]

    remove_part-run : (p : Part) (k : K) → remove_part w p k ≡ run (map delete_entry (wanted p)) k
    unfolding remove_part wanted del_arp del_fdb
    remove_part-run p k = elim (Bool-cases p.direct_ok) [
      | inl e ↦ rw e (try_request-run _ k)
      | inr n ↦ rw n (
          rw
            (
              try_request-run (delete_entry (arp p.dev.ifindex p.mac p.gw)) k,
              try_request-run (delete_entry (fdb p.dev.ifindex p.mac p.vtep)) _,
              try_request-run (delete_entry (route p.vxlan_route)) _,
            )
            refl)
    ]

    add_some-run :
        (retried : Bool) (p : Option Part) (k : K)
        → add_some w retried p k ≡ (run (map replace_entry (wanted_some p)) k, true)
    add_some-run retried none k = refl
    add_some-run retried (some p) k = add_part-run retried p k

    remove_some-run :
        (p : Option Part) (k : K) → remove_some w p k ≡ run (map delete_entry (wanted_some p)) k
    remove_some-run none k = refl
    remove_some-run (some p) k = remove_part-run p k

    act-run :
        (t : EventType) (p4 p6 : Option Part) (k : K)
        → act w t p4 p6 k
          ≡ run (requests_for t (wanted_some p4) ++ requests_for t (wanted_some p6)) k
    act-run added p4 p6 k =
        ap (λ x. then_add w x p6) (add_some-run false p4 k)
        ∙ ap (λ x. x.0) (add_some-run true p6 (run (map replace_entry (wanted_some p4)) k))
        ∙ sym
            (run-append (map replace_entry (wanted_some p4)) (map replace_entry (wanted_some p6)) k)
    act-run removed p4 p6 k =
        ap (remove_some w p6) (remove_some-run p4 k)
        ∙ remove_some-run p6 (run (map delete_entry (wanted_some p4)) k)
        ∙ sym (run-append (map delete_entry (wanted_some p4)) (map delete_entry (wanted_some p6)) k)

    pub with_parts-run :
        (t : EventType) (v4 v6 : Result DecodeError (Option Part)) (k : K)
        → with_parts w t v4 v6 k ≡ run (part_requests t v4 v6) k
    with_parts-run t (err e) v6 k = refl
    with_parts-run t (ok p4) (err e) k = refl
    with_parts-run t (ok p4) (ok p6) k = act-run t p4 p6 k

    module _ (table : K → Table) (kernel : IsKernel w table) where
      pub run-effects : (rs : List Request) (k : K) → table (run rs k) ≡ effects rs (table k)
      run-effects [] k = refl
      run-effects (r ∷ rs) k =
          run-effects rs (w.execute k r).0 ∙ ap (effects rs) (kernel.done k r (reliable k r))
