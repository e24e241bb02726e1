-- ===== src/Vxlan/Rollback.antt =====
-- An added part that fails leaves nothing behind.
use flannel_rust.Prelude.{
  ◌≡◌, refl, sym, ap, ◌∙◌, arith, Bool, true, false, none, some, List, [], ◌∷◌, ◌++◌, map,
  Bool-cases, inl, inr,
}
use flannel_rust.Prelude.Result.{ok, err}
use flannel_rust.Ip.V6.Bytes.{bytes_eq_iff}
use flannel_rust.Routes.{IpAddr, addr4, addr6, addr_eq}
use flannel_rust.Vxlan.{
  Entry, arp, fdb, route, Request, replace_entry, delete_entry, Answer, World, add_arp, del_arp,
  add_fdb, del_fdb, Slot, slot_of, slot_eq,
}
use flannel_rust.Vxlan.Retry.{retry_do-ok}
use flannel_rust.Vxlan.Events.{
  Part, finish, next, add_encapsulated, add_part, try_request, clean_up,
}
use flannel_rust.Vxlan.Tables.{
  Table, effect, effects, effects-append, IsKernel, Settles, retry_do-Settles,
}
use flannel_rust.Vxlan.Requests.{wanted}

addr_eq_refl : (a : IpAddr) → addr_eq a a ≡ true
addr_eq_refl (addr4 x) = ground arith
addr_eq_refl (addr6 x) = (bytes_eq_iff x.bytes x.bytes).1 refl

unfoldable pub arp_of : Part → Entry
arp_of p = arp p.dev.ifindex p.mac p.gw

unfoldable pub fdb_of : Part → Entry
fdb_of p = fdb p.dev.ifindex p.mac p.vtep

slot_of-arp : (p : Part) → slot_eq (slot_of (arp_of p)) (slot_of (arp_of p)) ≡ true
unfolding arp_of
slot_of-arp p = ground (arith, addr_eq_refl p.gw)

slot_of-fdb : (p : Part) → slot_eq (slot_of (fdb_of p)) (slot_of (fdb_of p)) ≡ true
unfolding fdb_of
slot_of-fdb p = ground (arith, (bytes_eq_iff p.mac p.mac).1 refl)

-- No entry stands at the place of this one.
abbrev pub IsVacant : Entry → Table → Type 0
IsVacant e t = (s : Slot) → slot_eq (slot_of e) s ≡ true → t s ≡ none

put_held :
    (e : Entry) (t : Table)
    → slot_eq (slot_of e) (slot_of e) ≡ true
    → effect (replace_entry e) t (slot_of e) ≡ some e
put_held e t same = rw same refl

undo_one :
    (a : Entry) (t : Table) (s : Slot)
    → (slot_eq (slot_of a) s ≡ true → t s ≡ none)
    → effects (replace_entry a ∷ delete_entry a ∷ []) t s ≡ t s
undo_one a t s h = elim (Bool-cases (slot_eq (slot_of a) s)) [
  | inl e ↦ rw e (sym (h e))
  | inr n ↦ rw n refl
]

undo_two :
    (a f : Entry) (t : Table) (s : Slot)
    → (slot_eq (slot_of a) s ≡ true → t s ≡ none)
    → (slot_eq (slot_of f) s ≡ true → t s ≡ none)
    → effects (replace_entry a ∷ replace_entry f ∷ delete_entry a ∷ delete_entry f ∷ []) t s ≡ t s
undo_two a f t s ha hf = elim (Bool-cases (slot_eq (slot_of f) s)) [
  | inl e ↦ rw e (sym (hf e))
  | inr n ↦ elim (Bool-cases (slot_eq (slot_of a) s)) [
    | inl e ↦ rw (n, e) (sym (ha e))
    | inr m ↦ rw (n, m) refl
  ]
]

module _ {K : Type 0} (table : K → Table) where
  -- What an added part comes to: all that it wants, or the tables as they were.
  abbrev pub Comes : List Request → Table → K × Bool → Type 0
  Comes rs t (k, true) = table k ≡ effects rs t
  Comes rs t (k, false) = (s : Slot) → table k s ≡ t s

module _ {K : Type 0} (w : World K) (table : K → Table) where
  -- An entry that stands in the tables can be deleted.
  abbrev pub DeletesHeld : Type 0
  DeletesHeld =
      (k : K) (e e' : Entry)
      → table k (slot_of e) ≡ some e'
      → (w.execute k (delete_entry e)).1 ≡ ok tt

module _ {K : Type 0} (w : World K) (table : K → Table) (kernel : IsKernel w table) where
  finish-Comes :
      (before : List Request) (r : Request) (t : Table) (k : K) (x : K × Answer) (undo : K → K)
      → table k ≡ effects before t
      → Settles w table r (table k) x
      → ((k' : K) → table k' ≡ effects before t → (s : Slot) → table (undo k') s ≡ t s)
      → Comes table (before ++ (r ∷ [])) t (finish w x undo)
  finish-Comes before r t k (k', ok u) undo e settled h =
      settled ∙ ap (effect r) e ∙ sym (effects-append before (r ∷ []) t)
  finish-Comes before r t k (k', err x) undo e settled h = h k' (settled ∙ e)

  next-Comes :
      (before rs : List Request) (r : Request) (t : Table) (k : K) (x : K × Answer) (undo : K → K)
      (go : K → K × Bool)
      → table k ≡ effects before t
      → Settles w table r (table k) x
      → ((k' : K) → table k' ≡ effects before t → (s : Slot) → table (undo k') s ≡ t s)
      → ((k' : K) → table k' ≡ effects (before ++ (r ∷ [])) t → Comes table rs t (go k'))
      → Comes table rs t (next w x undo go)
  next-Comes before rs r t k (k', ok u) undo go e settled h g =
      g k' (settled ∙ ap (effect r) e ∙ sym (effects-append before (r ∷ []) t))
  next-Comes before rs r t k (k', err x) undo go e settled h g = h k' (settled ∙ e)

  module _ (deletes : DeletesHeld w table) where
    del_once :
        (k : K) (e e' : Entry)
        → table k (slot_of e) ≡ some e'
        → table (w.execute k (delete_entry e)).0 ≡ effect (delete_entry e) (table k)
    del_once k e e' held = kernel.done k (delete_entry e) (deletes k e e' held)

    del_retried :
        (k : K) (e e' : Entry)
        → table k (slot_of e) ≡ some e'
        → table (try_request w (delete_entry e) k) ≡ effect (delete_entry e) (table k)
    del_retried k e e' held =
        ap (λ x. table x.0) (retry_do-ok w (delete_entry e) k (deletes k e e' held))
        ∙ del_once k e e' held

    -- The ARP and the FDB entry of a part stand in the tables: its clean-up takes them out, one after the
    -- other.
    clean_up-effects :
        (retried : Bool) (p : Part) (k : K)
        → table k (slot_of (arp_of p)) ≡ some (arp_of p)
        → table k (slot_of (fdb_of p)) ≡ some (fdb_of p)
        → table (clean_up w retried p k)
          ≡ effects (delete_entry (arp_of p) ∷ delete_entry (fdb_of p) ∷ []) (table k)
    unfolding clean_up del_arp del_fdb arp_of fdb_of
    clean_up-effects false p k ha hf =
        let first = del_once k (arp_of p) (arp_of p) ha in
        del_once (w.execute k (delete_entry (arp_of p))).0 (fdb_of p) (fdb_of p)
          (ap (λ t. t (slot_of (fdb_of p))) first ∙ hf)
        ∙ ap (effect (delete_entry (fdb_of p))) first
    clean_up-effects true p k ha hf =
        let first = del_retried k (arp_of p) (arp_of p) ha in
        del_retried (try_request w (delete_entry (arp_of p)) k) (fdb_of p) (fdb_of p)
          (ap (λ t. t (slot_of (fdb_of p))) first ∙ hf)
        ∙ ap (effect (delete_entry (fdb_of p))) first

    add_encapsulated-Comes :
        (retried : Bool) (p : Part) (k : K)
        → IsVacant (arp_of p) (table k)
        → IsVacant (fdb_of p) (table k)
        → Comes table
            (replace_entry (arp_of p)
              ∷ replace_entry (fdb_of p)
              ∷ replace_entry (route p.vxlan_route)
              ∷ [])
            (table k)
            (add_encapsulated w retried p k)
    unfolding add_encapsulated add_arp add_fdb del_arp arp_of fdb_of
    add_encapsulated-Comes retried p k va vf =
        let a = arp_of p in
        let f = fdb_of p in
        let t = table k in
        let all = replace_entry a ∷ replace_entry f ∷ replace_entry (route p.vxlan_route) ∷ [] in
        next-Comes [] all (replace_entry a) t k _ _ _ refl
          (retry_do-Settles w table kernel (replace_entry a) k) (λ k' e s. ap (λ t. t s) e)
          (λ k1 e1.
            next-Comes (replace_entry a ∷ []) all (replace_entry f) t k1 _ _ _ e1
              (retry_do-Settles w table kernel (replace_entry f) k1)
              (λ k' e s.
                ap (λ t. t s)
                  (del_retried k' a a (ap (λ t. t (slot_of a)) e ∙ put_held a t (slot_of-arp p))
                    ∙ ap (effect (delete_entry a)) e)
                ∙ undo_one a t s (va s))
              (λ k2 e2.
                finish-Comes (replace_entry a ∷ replace_entry f ∷ [])
                  (replace_entry (route p.vxlan_route)) t k2 _ _ e2
                  (retry_do-Settles w table kernel (replace_entry (route p.vxlan_route)) k2)
                  (λ k' e s.
                    ap (λ t. t s)
                      (clean_up-effects retried p k'
                          (ap (λ t. t (slot_of a)) e ∙ put_held a t (slot_of-arp p))
                          (ap (λ t. t (slot_of f)) e
                            ∙ put_held f (effect (replace_entry a) t) (slot_of-fdb p))
                        ∙ ap (effects (delete_entry a ∷ delete_entry f ∷ [])) e)
                    ∙ undo_two a f t s (va s) (vf s))))

    -- On a kernel that deletes the entries that it holds, whatever other requests it refuses and whenever
    -- the context is cancelled: an added part, for which neither its ARP nor its FDB entry stands in the
    -- tables, comes to all that it wants, or it leaves the tables as they were. This holds of both
    -- families, although only one retries its clean-up.
    pub add_part_outcome :
        (retried : Bool) (p : Part) (k : K)
        → IsVacant (arp_of p) (table k)
        → IsVacant (fdb_of p) (table k)
        → Comes table (map replace_entry (wanted p)) (table k) (add_part w retried p k)
    unfolding add_part wanted arp_of fdb_of
    add_part_outcome retried p k va vf = elim (Bool-cases p.direct_ok) [
      | inl e ↦ simp e (
          finish-Comes [] (replace_entry (route p.direct_route)) (table k) k _ _ refl
            (retry_do-Settles w table kernel (replace_entry (route p.direct_route)) k)
            (λ k' e s. ap (λ t. t s) e))
      | inr n ↦ simp n (add_encapsulated-Comes retried p k va vf)
    ]
