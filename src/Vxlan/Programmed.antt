-- ===== src/Vxlan/Programmed.antt =====
-- The events of a batch program the entries that they stand for.
use Prim.Native.String.{String}
use text.Mathlib.Text.{◌==◌ as str_eq}
use flannel_rust.Prelude.{
  ℕ, ◌≡◌, refl, sym, ap, ◌∙◌, Bool, true, false, not, Option, none, some, List, [], ◌∷◌, ◌++◌, map,
  Bool-cases, inl, inr, if◌then◌else◌,
}
use flannel_rust.Prelude.Result.{Result, ok, err, ◌>>=◌}
use flannel_rust.Ip.V6
use flannel_rust.Lease.{EventType, added, removed, Event, Lease}
use flannel_rust.Routes.{addr4, addr6}
use flannel_rust.Vxlan.{
  Entry, arp, fdb, route, Request, replace_entry, delete_entry, World, VxlanDevice, v4_vxlan_route,
  v4_direct_route, v6_vxlan_route, v6_direct_route,
}
use flannel_rust.Vxlan.Events.{
  JsonValue, DecodeError, VxlanLeaseAttrs, Part, parse_backend_data, direct_routing, v4_part,
  v6_part, or_zero, prepare_v4, prepare_v6, handle_event, handle_subnet_events,
}
use flannel_rust.Vxlan.Tables.{Table, effects, IsKernel}
use flannel_rust.Vxlan.Requests.{
  wanted, wanted_some, requests_for, part_requests, IsReliable, run, run-append, with_parts-run,
  run-effects,
}

-- The entries of a family, by what its data decodes to: none where the family is off or has no device, and
-- `none` where the data cannot be decoded.
abbrev family_entries :
    Bool
    → Option VxlanDevice
    → Result DecodeError VxlanLeaseAttrs
    → (VxlanDevice → VxlanLeaseAttrs → List Entry)
    → Option (List Entry)
family_entries false dev decoded entries = some []
family_entries true none decoded entries = some []
family_entries true (some dev) (err e) entries = none
family_entries true (some dev) (ok attrs) entries = some (entries dev attrs)

-- The entries of the two families, or of neither where the data of one cannot be decoded.
abbrev both : Option (List Entry) → Option (List Entry) → List Entry
both none o = []
both (some es) none = []
both (some es) (some fs) = es ++ fs

abbrev entries_of : Result DecodeError (Option Part) → Option (List Entry)
entries_of (err e) = none
entries_of (ok p) = some (wanted_some p)

map-append : (f : Entry → Request) (es fs : List Entry) → map f (es ++ fs) ≡ map f es ++ map f fs
map-append f [] fs = refl
map-append f (e ∷ es) fs = ap (λ (l : List Request). f e ∷ l) (map-append f es fs)

part_requests-both :
    (t : EventType) (v4 v6 : Result DecodeError (Option Part))
    → part_requests t v4 v6 ≡ requests_for t (both (entries_of v4) (entries_of v6))
part_requests-both added (err e) v6 = refl
part_requests-both removed (err e) v6 = refl
part_requests-both added (ok p4) (err e) = refl
part_requests-both removed (ok p4) (err e) = refl
part_requests-both added (ok p4) (ok p6) =
    sym (map-append replace_entry (wanted_some p4) (wanted_some p6))
part_requests-both removed (ok p4) (ok p6) =
    sym (map-append delete_entry (wanted_some p4) (wanted_some p6))

module _ (from_json : String → Result DecodeError (ℕ × JsonValue)) {K : Type 0} (w : World K) where
  -- The entries that a lease wants of a device, for the decoded data of its node: the direct route where the
  -- node is reached directly, or the three entries of the tunnel.
  abbrev entries4 : K → Lease → VxlanDevice → VxlanLeaseAttrs → List Entry
  entries4 k lease dev attrs =
      if direct_routing w k dev (addr4 lease.attrs.public_ip)
      then route (v4_direct_route lease.subnet lease.attrs.public_ip) ∷ []
      else arp dev.ifindex attrs.vtep_mac (addr4 lease.subnet.ip)
        ∷ fdb dev.ifindex attrs.vtep_mac (addr4 lease.attrs.public_ip)
        ∷ route (v4_vxlan_route dev.ifindex lease.subnet)
        ∷ []

  -- The same for IPv6; an empty subnet wants none.
  abbrev entries6 : K → Lease → VxlanDevice → VxlanLeaseAttrs → List Entry
  entries6 k lease dev attrs =
      let vtep = or_zero lease.attrs.public_ipv6 in
      if V6.empty lease.ipv6_subnet
      then []
      else if direct_routing w k dev (addr6 vtep)
      then route (v6_direct_route lease.ipv6_subnet vtep) ∷ []
      else arp dev.ifindex attrs.vtep_mac (addr6 lease.ipv6_subnet.ip)
        ∷ fdb dev.ifindex attrs.vtep_mac (addr6 vtep)
        ∷ route (v6_vxlan_route dev.ifindex lease.ipv6_subnet)
        ∷ []

  -- What an event asks of the tables, with the devices and the connected nodes of the state that it finds.
  abbrev pub event_requests : K → Event → List Request
  event_requests k event =
      let lease = event.lease in
      if not (str_eq lease.attrs.backend_type "vxlan")
      then []
      else requests_for event.event_type (
          both
            (family_entries lease.enable_ipv4 (w.net_state k).dev
              (parse_backend_data from_json lease.attrs.backend_data) (entries4 k lease))
            (family_entries lease.enable_ipv6 (w.net_state k).v6_dev
              (parse_backend_data from_json lease.attrs.backend_v6_data) (entries6 k lease)))

  prepared_v4 :
      (k : K) (enabled : Bool) (dev : Option VxlanDevice) (lease : Lease)
      → entries_of (prepare_v4 from_json w k enabled dev lease)
        ≡ family_entries enabled dev
            (parse_backend_data from_json lease.attrs.backend_data)
            (entries4 k lease)
  unfolding prepare_v4 wanted
  prepared_v4 k false dev lease = refl
  prepared_v4 k true none lease = refl
  prepared_v4 k true (some dev) lease =
      decoded (parse_backend_data from_json lease.attrs.backend_data)
    where
      decoded :
          (r : Result DecodeError VxlanLeaseAttrs)
          → entries_of (r >>= λ attrs. ok (some (v4_part w k lease dev attrs)))
            ≡ family_entries true (some dev) r (entries4 k lease)
      decoded (err e) = refl
      decoded (ok attrs) = refl

  prepared_v6 :
      (k : K) (enabled : Bool) (dev : Option VxlanDevice) (lease : Lease)
      → entries_of (prepare_v6 from_json w k enabled dev lease)
        ≡ family_entries enabled dev
            (parse_backend_data from_json lease.attrs.backend_v6_data)
            (entries6 k lease)
  unfolding prepare_v6 wanted
  prepared_v6 k false dev lease = refl
  prepared_v6 k true none lease = refl
  prepared_v6 k true (some dev) lease =
      decoded (parse_backend_data from_json lease.attrs.backend_v6_data)
    where
      decoded :
          (r : Result DecodeError VxlanLeaseAttrs)
          → entries_of (
              r >>= λ attrs. ok (
                if not (V6.empty lease.ipv6_subnet)
                then some (v6_part w k lease (or_zero lease.attrs.public_ipv6) dev attrs)
                else none))
            ≡ family_entries true (some dev) r (entries6 k lease)
      decoded (err e) = refl
      decoded (ok attrs) = elim (Bool-cases (V6.empty lease.ipv6_subnet)) [
        | inl none_wanted ↦ rw none_wanted refl
        | inr some_wanted ↦ rw some_wanted refl
      ]

  abbrev pub batch_requests : K → List Event → List Request
  batch_requests k [] = []
  batch_requests k (event ∷ batch) =
      event_requests k event ++ batch_requests (run w (event_requests k event) k) batch

  module _ (reliable : IsReliable w) where
    handle_event-run :
        (event : Event) (k : K)
        → handle_event from_json w event k ≡ run w (event_requests k event) k
    unfolding handle_event
    handle_event-run event k = elim (Bool-cases (str_eq event.lease.attrs.backend_type "vxlan")) [
      | inl e ↦
          let lease = event.lease in
          let v4 = prepare_v4 from_json w k lease.enable_ipv4 (w.net_state k).dev lease in
          let v6 = prepare_v6 from_json w k lease.enable_ipv6 (w.net_state k).v6_dev lease in
          rw
            (
              e,
              ← prepared_v4 k lease.enable_ipv4 (w.net_state k).dev lease,
              ← prepared_v6 k lease.enable_ipv6 (w.net_state k).v6_dev lease,
              ← part_requests-both event.event_type v4 v6,
            )
            (with_parts-run w reliable event.event_type v4 v6 k)
      | inr n ↦ rw n refl
    ]

    handle_subnet_events-run :
        (batch : List Event) (k : K)
        → handle_subnet_events from_json w batch k ≡ run w (batch_requests k batch) k
    unfolding handle_subnet_events
    handle_subnet_events-run [] k = refl
    handle_subnet_events-run (event ∷ batch) k =
        let k' = run w (event_requests k event) k in
        ap (handle_subnet_events from_json w batch) (handle_event-run event k)
        ∙ handle_subnet_events-run batch k'
        ∙ sym (run-append w (event_requests k event) (batch_requests k' batch) k)

    -- On a kernel that answers every request, a batch leaves the tables as the entries of its events say, in
    -- their order: an added lease of the backend puts the entries that it wants, a removed one takes them
    -- out. For each family that the lease enables and that has a device, these are the direct route where the
    -- node is reached directly, or else the ARP entry, the FDB entry and the route of the tunnel, by the MAC
    -- address that the backend data decodes to; there are none for an empty IPv6 subnet. Another backend's
    -- lease, or one whose data for such a family cannot be decoded, changes nothing.
    pub handle_subnet_events-effects :
        (table : K → Table)
        → IsKernel w table
        → (batch : List Event) (k : K)
        → table (handle_subnet_events from_json w batch k)
          ≡ effects (batch_requests k batch) (table k)
    handle_subnet_events-effects table kernel batch k =
        ap table (handle_subnet_events-run batch k)
        ∙ run-effects w reliable table kernel (batch_requests k batch) k
