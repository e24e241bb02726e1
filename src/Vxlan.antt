-- ===== src/Vxlan.antt =====
-- crates/flannel-core/src/backend/vxlan/device.rs and events.rs: the device, the entries that an event
-- stands for, and the requests that program them. The kernel, the clock and the context are a parameter.
pub mod Retry
pub mod Events
pub mod Tables
pub mod Requests
pub mod Programmed
pub mod Rollback
use Prim.Native.String.{String}
use flannel_rust.Prelude.{ℕ, ◌%◌, Bool, true, false, ◌&&◌, Option, none, some, List, [], ◌∷◌, ◌==◌}
use flannel_rust.Prelude.Result.{Result, ok, err}
use flannel_rust.Mac.{MacAddr}
use flannel_rust.Ip.V4.{Ip4, Ip4Net}
use flannel_rust.Ip.V6.{Ip6, Ip6Net, bytes_eq}
use flannel_rust.Routes.{
  IpAddr, addr4, addr6, addr_eq, AddressFamily, inet, inet6, family_eq, RouteMessage,
}

pub record VxlanDevice : Type 0 where
  pub name : String
  pub ifindex : ℕ
  pub mtu : ℕ
  pub mac : MacAddr
  pub direct_routing : Bool

-- What the neighbour requests of add_arp, del_arp, add_fdb and del_fdb carry. A bridge entry has the flag
-- NTF_SELF.
pub data Entry : Type 0 where
  arp : (ifindex : ℕ) → (mac : MacAddr) → (ip : IpAddr) → Entry
  fdb : (ifindex : ℕ) → (mac : MacAddr) → (dst : IpAddr) → Entry
  route : RouteMessage → Entry

pub data Request : Type 0 where
  replace_entry delete_entry : Entry → Request

abbrev pub Answer : Type 0
Answer = Result String (Unit {0})

-- `Mutex<NetState>`: the devices of the network.
pub record NetState : Type 0 where
  pub dev : Option VxlanDevice
  pub v6_dev : Option VxlanDevice

-- All that a handler of events acts on: the kernel behind the netlink connection, the shared devices, and
-- a sleep of so many milliseconds, which is `none` where the context is cancelled first.
pub record World (K : Type 0) : Type 0 where
  pub execute : K → Request → K × Answer
  pub route_get : K → IpAddr → Result String (List RouteMessage)
  pub net_state : K → NetState
  pub sleep : K → ℕ → Option K

unfoldable pub add_arp : VxlanDevice → MacAddr → IpAddr → Request
add_arp dev mac ip = replace_entry (arp dev.ifindex mac ip)

unfoldable pub del_arp : VxlanDevice → MacAddr → IpAddr → Request
del_arp dev mac ip = delete_entry (arp dev.ifindex mac ip)

unfoldable pub add_fdb : VxlanDevice → MacAddr → IpAddr → Request
add_fdb dev mac dst = replace_entry (fdb dev.ifindex mac dst)

unfoldable pub del_fdb : VxlanDevice → MacAddr → IpAddr → Request
del_fdb dev mac dst = delete_entry (fdb dev.ifindex mac dst)

abbrev pub route_replace : RouteMessage → Request
route_replace msg = replace_entry (route msg)

abbrev pub route_del : RouteMessage → Request
route_del msg = delete_entry (route msg)

unfoldable pub v4_vxlan_route : ℕ → Ip4Net → RouteMessage
v4_vxlan_route ifindex sn = record {
  route_dst = some (addr4 sn.ip);
  destination_prefix_length = sn.prefix_len % 256;
  route_gateway = some (addr4 sn.ip);
  route_oif = some ifindex;
  address_family = inet;
  is_onlink = true;
}

unfoldable pub v4_direct_route : Ip4Net → Ip4 → RouteMessage
v4_direct_route sn public_ip = record {
  route_dst = some (addr4 sn.ip);
  destination_prefix_length = sn.prefix_len % 256;
  route_gateway = some (addr4 public_ip);
  route_oif = none;
  address_family = inet;
  is_onlink = false;
}

unfoldable pub v6_vxlan_route : ℕ → Ip6Net → RouteMessage
v6_vxlan_route ifindex sn = record {
  route_dst = some (addr6 sn.ip);
  destination_prefix_length = sn.prefix_len % 256;
  route_gateway = some (addr6 sn.ip);
  route_oif = some ifindex;
  address_family = inet6;
  is_onlink = true;
}

unfoldable pub v6_direct_route : Ip6Net → Ip6 → RouteMessage
v6_direct_route sn public_ip = record {
  route_dst = some (addr6 sn.ip);
  destination_prefix_length = sn.prefix_len % 256;
  route_gateway = some (addr6 public_ip);
  route_oif = none;
  address_family = inet6;
  is_onlink = false;
}

-- A destination is connected when there is exactly one route to it, without a gateway.
abbrev pub is_connected : List RouteMessage → Bool
is_connected [] = false
is_connected (r ∷ []) = elim r.route_gateway [ none ↦ true | some g ↦ false ]
is_connected (r ∷ s ∷ rs) = false

abbrev pub connected_of : Result String (List RouteMessage) → Result String Bool
connected_of (err e) = err e
connected_of (ok routes) = ok (is_connected routes)

-- Where an entry stands in the kernel's tables: one entry to a place, which a replacement overwrites.
pub data Slot : Type 0 where
  arp_slot : ℕ → IpAddr → Slot
  fdb_slot : ℕ → MacAddr → Slot
  route_slot : AddressFamily → Option IpAddr → ℕ → Slot

abbrev pub slot_of : Entry → Slot
slot_of (arp ifindex mac ip) = arp_slot ifindex ip
slot_of (fdb ifindex mac dst) = fdb_slot ifindex mac
slot_of (route m) = route_slot m.address_family m.route_dst m.destination_prefix_length

abbrev dst_eq : Option IpAddr → Option IpAddr → Bool
dst_eq none none = true
dst_eq none (some y) = false
dst_eq (some x) none = false
dst_eq (some x) (some y) = addr_eq x y

abbrev pub slot_eq : Slot → Slot → Bool
slot_eq (arp_slot i x) (arp_slot j y) = i == j && addr_eq x y
slot_eq (fdb_slot i x) (fdb_slot j y) = i == j && bytes_eq x y
slot_eq (route_slot f x n) (route_slot g y m) = family_eq f g && (dst_eq x y && n == m)
slot_eq (arp_slot i x) (fdb_slot j y) = false
slot_eq (arp_slot i x) (route_slot g y m) = false
slot_eq (fdb_slot i x) (arp_slot j y) = false
slot_eq (fdb_slot i x) (route_slot g y m) = false
slot_eq (route_slot f x n) (arp_slot j y) = false
slot_eq (route_slot f x n) (fdb_slot j y) = false
