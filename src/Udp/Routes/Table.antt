-- ===== src/Udp/Routes/Table.antt =====
-- The route table as a finite map from destinations to next hops.
use flannel_rust.Prelude.{
  ℕ, ◌+◌, ◌≤◌, ◌<◌, ◌≡◌, ◌↔◌, ◌⊎◌, inl, inr, refl, sym, ap, ◌∙◌, arith, Bool, true, false, not,
  ◌&&◌, length, Bool-cases, Option, none, some, List, [], ◌∷◌, ◌==◌, if◌then◌else◌, count, position,
  swap_front, swap_remove, swap_front-count, position-none, swap_remove-count, Option-cases,
}
use flannel_rust.Udp.Routes.{
  IpNet, RouteEntry, RouteTable, net_eq, to_dst, routes_to, set_entries, set_route, del_route,
  find_route, move_front,
}

abbrev pub same_entry : RouteEntry → RouteEntry → Bool
same_entry a b =
    net_eq a.dst b.dst && (a.next_hop_ip == b.next_hop_ip && a.next_hop_port == b.next_hop_port)

same_first : (x : RouteEntry) (rest : List RouteEntry) → 0 < count (same_entry x) (x ∷ rest)
same_first x rest = ground arith

-- No two entries have the same destination.
abbrev pub IsKeyed : RouteTable → Type 0
IsKeyed t = (dst : IpNet) → count (to_dst dst) t.entries ≤ 1

-- The entries with another destination that pass a test.
abbrev pub elsewhere : IpNet → (RouteEntry → Bool) → RouteTable → ℕ
elsewhere dst p t = count (λ e. p e && not (to_dst dst e)) t.entries

set_elsewhere :
    (p : RouteEntry → Bool) (es : List RouteEntry) (dst : IpNet) (ip port : ℕ)
    → count (λ e. p e && not (to_dst dst e)) (set_entries es dst ip port)
      ≡ count (λ e. p e && not (to_dst dst e)) es
unfolding set_entries
set_elsewhere p [] dst ip port = ground arith
set_elsewhere p (e ∷ es) dst ip port = ground (arith, set_elsewhere p es dst ip port)

abbrev pub hops_to : IpNet → ℕ → ℕ → RouteEntry → Bool
hops_to dst ip port e = to_dst dst e && (e.next_hop_ip == ip && e.next_hop_port == port)

set_here :
    (es : List RouteEntry) (dst : IpNet) (ip port : ℕ)
    → count (to_dst dst) es ≤ 1
    → (count (to_dst dst) (set_entries es dst ip port) ≡ 1)
      × (count (hops_to dst ip port) (set_entries es dst ip port) ≡ 1)
unfolding set_entries
set_here [] dst ip port h = ground arith
set_here (e ∷ es) dst ip port h = ground (arith, set_here es dst ip port, no_hops es dst ip port)
  where
    no_hops :
        (es : List RouteEntry) (dst : IpNet) (ip port : ℕ)
        → count (to_dst dst) es ≡ 0
        → count (hops_to dst ip port) es ≡ 0
    no_hops [] dst ip port h = refl
    no_hops (e ∷ es) dst ip port h = ground (arith, no_hops es dst ip port)

-- The count at a destination is a count elsewhere for every other destination.
other_dst :
    (es : List RouteEntry) (dst d : IpNet)
    → net_eq d dst ≡ false
    → count (to_dst d) es ≡ count (λ e. to_dst d e && not (to_dst dst e)) es
other_dst [] dst d n = refl
other_dst (e ∷ es) dst d n = ground (arith, other_dst es dst d n)

same_dst : (dst d : IpNet) → (net_eq d dst ≡ false) ⊎ (d ≡ dst)
same_dst dst d = ground arith

IsKeyed-by :
    (t t' : RouteTable) (dst : IpNet)
    → IsKeyed t
    → count (to_dst dst) t'.entries ≤ 1
    → ((p : RouteEntry → Bool) → elsewhere dst p t' ≡ elsewhere dst p t)
    → IsKeyed t'
IsKeyed-by t t' dst h here others d = elim (same_dst dst d) [
  | inl n ↦
      rw (other_dst t'.entries dst d n, others (to_dst d), ← other_dst t.entries dst d n) (h d)
  | inr e ↦ rw e here
]

-- On a table without two entries of one destination, setting a route leaves exactly one entry for
-- the destination, the one with the new next hop, and every other entry as it was; the table stays
-- one without two entries of one destination.
pub set_route_lem :
    (t : RouteTable) (dst : IpNet) (ip port : ℕ)
    → IsKeyed t
    → IsKeyed (set_route t dst ip port)
      × (count (to_dst dst) (set_route t dst ip port).entries ≡ 1)
      × (count (hops_to dst ip port) (set_route t dst ip port).entries ≡ 1)
      × ((p : RouteEntry → Bool) → elsewhere dst p (set_route t dst ip port) ≡ elsewhere dst p t)
unfolding set_route
set_route_lem t dst ip port h =
    let (one, new) = set_here t.entries dst ip port (h dst) in
    let others = λ (p : RouteEntry → Bool). set_elsewhere p t.entries dst ip port in
    (
      IsKeyed-by t (record { entries = set_entries t.entries dst ip port }) dst h
          (omega (arith, one)) others,
      one,
      new,
      others,
    )

del_route-none :
    (t : RouteTable) (dst : IpNet)
    → position (to_dst dst) t.entries ≡ none
    → del_route t dst ≡ (t, false)
unfolding del_route
del_route-none t dst e = rw (e, del_route) refl

del_route-some :
    (t : RouteTable) (dst : IpNet) (i : ℕ)
    → position (to_dst dst) t.entries ≡ some i
    → del_route t dst ≡ (record { entries = swap_remove i t.entries }, true)
unfolding del_route
del_route-some t dst i e = rw (e, del_route) refl

-- What deleting the route to `dst` gives.
abbrev pub IsDeleted : RouteTable → IpNet → RouteTable × Bool → Type 0
IsDeleted t dst (t', found) =
    IsKeyed t'
    × (count (to_dst dst) t'.entries ≡ 0)
    × ((found ≡ true) ↔ (count (to_dst dst) t.entries ≡ 1))
    × ((p : RouteEntry → Bool) → elsewhere dst p t' ≡ elsewhere dst p t)

removed_here :
    (es rest : List RouteEntry) (dst : IpNet) (x : RouteEntry)
    → to_dst dst x ≡ true
    → count (to_dst dst) es ≤ 1
    → (if to_dst dst x then 1 else 0) + count (to_dst dst) rest ≡ count (to_dst dst) es
    → (count (to_dst dst) rest ≡ 0) × (count (to_dst dst) es ≡ 1)
removed_here es rest dst x hit h e = ground arith

removed_elsewhere :
    (p : RouteEntry → Bool) (es rest : List RouteEntry) (dst : IpNet) (x : RouteEntry)
    → to_dst dst x ≡ true
    → (if p x && not (to_dst dst x) then 1 else 0) + count (λ e. p e && not (to_dst dst e)) rest
      ≡ count (λ e. p e && not (to_dst dst e)) es
    → count (λ e. p e && not (to_dst dst e)) rest ≡ count (λ e. p e && not (to_dst dst e)) es
removed_elsewhere p es rest dst x hit e = ground arith

-- On a table without two entries of one destination, deleting a route leaves none for the
-- destination and every other entry as it was, tells whether there was one, and the table stays one
-- without two entries of one destination.
pub del_route_lem : (t : RouteTable) (dst : IpNet) → IsKeyed t → IsDeleted t dst (del_route t dst)
del_route_lem t dst h = elim (Option-cases (position (to_dst dst) t.entries)) [
  | inl missing ↦
      let zero_count = (position-none (to_dst dst) t.entries).0 missing in
      rw (del_route-none t dst missing) (h, zero_count, ground arith, λ p. refl)
  | inr (i, found) ↦
      let rest = swap_remove i t.entries in
      let (x, hit, counts) = swap_remove-count (to_dst dst) (to_dst dst) t.entries i found in
      let (gone, one) = removed_here t.entries rest dst x hit (h dst) counts in
      let others : (p : RouteEntry → Bool)
          → elsewhere dst p (record { entries = rest }) ≡ elsewhere dst p t =
        λ p.
          let (y, hit', counts') =
            swap_remove-count (λ e. p e && not (to_dst dst e)) (to_dst dst) t.entries i found in
          removed_elsewhere p t.entries rest dst y hit' counts' in
      rw (del_route-some t dst i found) (
        IsKeyed-by t (record { entries = rest }) dst h (omega (arith, gone)) others,
        gone,
        (λ _. one, λ _. refl),
        others,
      )
]

find_route-none :
    (t : RouteTable) (ip : ℕ)
    → position (routes_to ip) t.entries ≡ none
    → find_route t ip ≡ some (t, none)
unfolding find_route
find_route-none t ip e = rw (e, find_route) refl

position-lt :
    (q : RouteEntry → Bool) (es : List RouteEntry) (i : ℕ) → position q es ≡ some i → i < length es
position-lt q [] i e = absurd (ground arith)
position-lt q (x ∷ es) i e = elim (Option-cases (position q es)) [
  | inl missing ↦ ground (arith, missing)
  | inr (j, found) ↦ let bound = position-lt q es j found in ground (arith, found, bound)
]

swap_front-zero : (es : List RouteEntry) → swap_front 0 es ≡ es
swap_front-zero [] = refl
swap_front-zero (e ∷ es) = refl

-- An index that was found is within the table.
move_front-some :
    (q : RouteEntry → Bool) (es : List RouteEntry) (i : ℕ)
    → position q es ≡ some i
    → move_front i es ≡ some (swap_front i es)
move_front-some q es i e = elim (Bool-cases (i == 0)) [
  | inl first ↦
      let at_front : i ≡ 0 = ground arith in
      rw at_front (ap (λ l. some l) (sym (swap_front-zero es)))
  | inr later ↦ let bound = position-lt q es i e in ground (arith, bound, later)
]

find_route-some :
    (t : RouteTable) (ip i : ℕ) (x : RouteEntry) (rest : List RouteEntry)
    → position (routes_to ip) t.entries ≡ some i
    → swap_front i t.entries ≡ x ∷ rest
    → find_route t ip ≡ some (record { entries = x ∷ rest }, some (x.next_hop_ip, x.next_hop_port))
unfolding find_route
find_route-some t ip i x rest e shape =
    rw (e, find_route, move_front-some (routes_to ip) t.entries i e, shape) refl

-- What a search gives: the same entries, in whatever order, and the next hop of an entry that
-- routes the address, or nothing where no entry does.
abbrev pub IsFound : RouteTable → ℕ → RouteTable × Option (ℕ × ℕ) → Type 0
IsFound t ip (t', hop) =
    ((p : RouteEntry → Bool) → count p t'.entries ≡ count p t.entries)
    × (((hop ≡ none) × (count (routes_to ip) t.entries ≡ 0))
        ⊎ ((e : RouteEntry) × (hop ≡ some (e.next_hop_ip, e.next_hop_port))
            × (routes_to ip e ≡ true)
            × (0 < count (same_entry e) t.entries)))

first_kept :
    (x : RouteEntry) (rest es' es : List RouteEntry)
    → ((p : RouteEntry → Bool) → count p es' ≡ count p es)
    → es' ≡ x ∷ rest
    → 0 < count (same_entry x) es
first_kept x rest es' es counts shape = rw (← counts (same_entry x), shape) (same_first x rest)

-- A search stays within the table. It keeps the entries, how often each occurs included, and answers with the next hop of an
-- entry of the table that routes the address; it answers nothing only where no entry routes it.
pub find_route_lem :
    (t : RouteTable) (ip : ℕ)
    → (r : RouteTable × Option (ℕ × ℕ)) × (find_route t ip ≡ some r) × IsFound t ip r
find_route_lem t ip = elim (Option-cases (position (routes_to ip) t.entries)) [
  | inl missing ↦ (
    (t, none),
    find_route-none t ip missing,
    (λ p. refl, inl (refl, (position-none (routes_to ip) t.entries).0 missing)),
  )
  | inr (i, found) ↦
      let counts : (p : RouteEntry → Bool) → count p (swap_front i t.entries) ≡ count p t.entries =
        λ p. let (_, _, _, _, c) = swap_front-count p (routes_to ip) t.entries i found in c in
      let (x, rest, shape, hit, _) =
        swap_front-count (λ _. true) (routes_to ip) t.entries i found in
      (
        (record { entries = x ∷ rest }, some (x.next_hop_ip, x.next_hop_port)),
        find_route-some t ip i x rest found shape,
        (
          λ p. sym (ap (count p) shape) ∙ counts p,
          inr (x, refl, hit, first_kept x rest (swap_front i t.entries) t.entries counts shape),
        ),
      )
]
