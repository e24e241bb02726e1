-- ===== src/Vxlan/Events.antt =====
-- handle_subnet_events of vxlan/events.rs. The JSON parser is a parameter: it gives the VNI and the value of
-- VtepMAC.
use Prim.Native.String.{String}
use text.Mathlib.Text.{◌==◌ as str_eq}
use flannel_rust.Prelude.{
  ℕ, Bool, true, false, not, Option, none, some, List, [], ◌∷◌, if◌then◌else◌,
}
use flannel_rust.Prelude.Result.{Result, ok, err, ◌>>=◌}
use flannel_rust.Ip.V6
use flannel_rust.Ip.V6.{Ip6, Ip6Net}
use flannel_rust.Lease.{EventType, added, removed, Event, Lease}
use flannel_rust.Mac.{MacAddr, MacError, parse_mac}
use flannel_rust.Routes.{IpAddr, addr4, addr6, RouteMessage}
use flannel_rust.Vxlan.{
  VxlanDevice, Request, Answer, World, add_arp, del_arp, add_fdb, del_fdb, route_replace, route_del,
  v4_vxlan_route, v4_direct_route, v6_vxlan_route, v6_direct_route, connected_of,
}
use flannel_rust.Vxlan.Retry.{retry_do}

-- A JSON value, as far as VtepMAC tells them apart.
pub data JsonValue : Type 0 where
  json_string : String → JsonValue
  json_other : JsonValue

pub data DecodeError : Type 0 where
  invalid_json invalid_addr : String → DecodeError

pub record VxlanLeaseAttrs : Type 0 where
  pub vni : ℕ
  pub vtep_mac : MacAddr

abbrev of_mac : Result MacError MacAddr → Result DecodeError MacAddr
of_mac (err e) = err (invalid_addr "invalid MAC address")
of_mac (ok mac) = ok mac

-- The VTEP's address: a string is required.
unfoldable pub mac_json : JsonValue → Result DecodeError MacAddr
mac_json (json_string s) = of_mac (parse_mac s)
mac_json json_other = err (invalid_addr "error parsing hardware addr")

abbrev or_null : Option String → String
or_null none = "null"
or_null (some s) = s

-- What the parts of an event are worked out to be for one family: the device, the MAC address of the
-- remote VTEP, the two routes, whether the direct one is used, and the addresses of the ARP and FDB entries.
pub record Part : Type 0 where
  pub dev : VxlanDevice
  pub mac : MacAddr
  pub vxlan_route : RouteMessage
  pub direct_route : RouteMessage
  pub direct_ok : Bool
  pub gw : IpAddr
  pub vtep : IpAddr

abbrev or_false : Result String Bool → Bool
or_false (err e) = false
or_false (ok b) = b

abbrev pub or_zero : Option Ip6 → Ip6
or_zero none = V6.zero_ip
or_zero (some ip) = ip

module _ {K : Type 0} (w : World K) where
  -- A failed lookup of the route is logged, and leaves the direct route unused.
  unfoldable pub direct_routing : K → VxlanDevice → IpAddr → Bool
  direct_routing k dev ip =
      if dev.direct_routing then or_false (connected_of (w.route_get k ip)) else false

  abbrev pub v4_part : K → Lease → VxlanDevice → VxlanLeaseAttrs → Part
  v4_part k lease dev attrs = record {
    dev = dev;
    mac = attrs.vtep_mac;
    vxlan_route = v4_vxlan_route dev.ifindex lease.subnet;
    direct_route = v4_direct_route lease.subnet lease.attrs.public_ip;
    direct_ok = direct_routing k dev (addr4 lease.attrs.public_ip);
    gw = addr4 lease.subnet.ip;
    vtep = addr4 lease.attrs.public_ip;
  }

  abbrev pub v6_part : K → Lease → Ip6 → VxlanDevice → VxlanLeaseAttrs → Part
  v6_part k lease pub6 dev attrs = record {
    dev = dev;
    mac = attrs.vtep_mac;
    vxlan_route = v6_vxlan_route dev.ifindex lease.ipv6_subnet;
    direct_route = v6_direct_route lease.ipv6_subnet pub6;
    direct_ok = direct_routing k dev (addr6 pub6);
    gw = addr6 lease.ipv6_subnet.ip;
    vtep = addr6 pub6;
  }

  -- The steps of an added part. `false` is the `continue` that ends the event.
  abbrev pub finish : K × Answer → (K → K) → K × Bool
  finish (k, ok u) undo = (k, true)
  finish (k, err e) undo = (undo k, false)

  abbrev pub next : K × Answer → (K → K) → (K → K × Bool) → K × Bool
  next (k, ok u) undo go = go k
  next (k, err e) undo go = (undo k, false)

  -- A request whose failure is only logged.
  abbrev pub try_request : Request → K → K
  try_request r k = (retry_do w r k).0

  -- The clean-up after a route that cannot be added: IPv4 does not retry it, IPv6 does.
  unfoldable pub clean_up : Bool → Part → K → K
  clean_up false p k =
      (w.execute (w.execute k (del_arp p.dev p.mac p.gw)).0 (del_fdb p.dev p.mac p.vtep)).0
  clean_up true p k =
      try_request (del_fdb p.dev p.mac p.vtep) (try_request (del_arp p.dev p.mac p.gw) k)

  unfoldable pub add_encapsulated : Bool → Part → K → K × Bool
  add_encapsulated retried p k =
      next (retry_do w (add_arp p.dev p.mac p.gw) k) (λ k. k)
        (λ k.
          next (retry_do w (add_fdb p.dev p.mac p.vtep) k)
            (λ k. try_request (del_arp p.dev p.mac p.gw) k)
            (λ k. finish (retry_do w (route_replace p.vxlan_route) k) (λ k. clean_up retried p k)))

  unfoldable pub add_part : Bool → Part → K → K × Bool
  add_part retried p k =
      if p.direct_ok
      then finish (retry_do w (route_replace p.direct_route) k) (λ k. k)
      else add_encapsulated retried p k

  -- All the entries of a removed part are deleted, whether or not one of the requests fails.
  unfoldable pub remove_part : Part → K → K
  remove_part p k =
      if p.direct_ok
      then try_request (route_del p.direct_route) k
      else try_request (route_del p.vxlan_route)
          (try_request (del_fdb p.dev p.mac p.vtep) (try_request (del_arp p.dev p.mac p.gw) k))

  abbrev pub add_some : Bool → Option Part → K → K × Bool
  add_some retried none k = (k, true)
  add_some retried (some p) k = add_part retried p k

  abbrev pub remove_some : Option Part → K → K
  remove_some none k = k
  remove_some (some p) k = remove_part p k

  abbrev pub then_add : K × Bool → Option Part → K
  then_add (k, false) p6 = k
  then_add (k, true) p6 = (add_some true p6 k).0

  abbrev pub act : EventType → Option Part → Option Part → K → K
  act added p4 p6 k = then_add (add_some false p4 k) p6
  act removed p4 p6 k = remove_some p6 (remove_some p4 k)

  abbrev pub with_parts :
      EventType → Result DecodeError (Option Part) → Result DecodeError (Option Part) → K → K
  with_parts t (err e) v6 k = k
  with_parts t (ok p4) (err e) k = k
  with_parts t (ok p4) (ok p6) k = act t p4 p6 k

module _ (from_json : String → Result DecodeError (ℕ × JsonValue)) where
  unfoldable pub parse_backend_data : Option String → Result DecodeError VxlanLeaseAttrs
  parse_backend_data raw = do
    (vni, value) ← from_json (or_null raw)
    mac ← mac_json value
    ok (record { vni = vni; vtep_mac = mac })

  module _ {K : Type 0} (w : World K) where
    -- The IPv4 part of an event: none where IPv4 is off or there is no device, an error where the backend
    -- data cannot be decoded.
    unfoldable pub prepare_v4 :
        K → Bool → Option VxlanDevice → Lease → Result DecodeError (Option Part)
    prepare_v4 k false dev lease = ok none
    prepare_v4 k true none lease = ok none
    prepare_v4 k true (some dev) lease = do
      attrs ← parse_backend_data lease.attrs.backend_data
      ok (some (v4_part w k lease dev attrs))

    -- The IPv6 part; there are no routes to an empty subnet.
    unfoldable pub prepare_v6 :
        K → Bool → Option VxlanDevice → Lease → Result DecodeError (Option Part)
    prepare_v6 k false dev lease = ok none
    prepare_v6 k true none lease = ok none
    prepare_v6 k true (some dev) lease = do
      attrs ← parse_backend_data lease.attrs.backend_v6_data
      ok (
          if not (V6.empty lease.ipv6_subnet)
          then some (v6_part w k lease (or_zero lease.attrs.public_ipv6) dev attrs)
          else none)

    unfoldable pub handle_event : Event → K → K
    handle_event event k =
        let lease = event.lease in
        let devices = w.net_state k in
        if not (str_eq lease.attrs.backend_type "vxlan")
        then k
        else with_parts w event.event_type (prepare_v4 k lease.enable_ipv4 devices.dev lease)
            (prepare_v6 k lease.enable_ipv6 devices.v6_dev lease) k

    unfoldable pub handle_subnet_events : List Event → K → K
    handle_subnet_events [] k = k
    handle_subnet_events (event ∷ batch) k = handle_subnet_events batch (handle_event event k)
