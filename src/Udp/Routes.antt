-- ===== src/Udp/Routes.antt =====
-- crates/flannel-core/src/backend/udp/proxy.rs: the control commands and the route table. Addresses are
-- in network order, loaded on a little-endian machine.
pub mod Codec
pub mod Table
pub mod Lookup
use flannel_rust.Prelude.{
  ℕ, ◌+◌, ◌-◌, ◌*◌, ◌/◌, ◌%◌, ◌^◌, min, bit_and, Bool, true, false, ◌&&◌, Option, none, some, List,
  [], ◌∷◌, ◌++◌, ltb, ◌==◌, if◌then◌else◌, length, get_or, position, swap_front, swap_remove,
}
use flannel_rust.Prelude.Int.{ℤ, pos, negsuc}
use flannel_rust.Udp.Packet.{le32, le16}

-- The signed fields are integers; the port is an `i16`.
pub record Command : Type 0 where
  pub cmd : ℤ
  pub dest_net : ℕ
  pub dest_net_len : ℤ
  pub next_hop_ip : ℕ
  pub next_hop_port : ℤ

-- Two's complement at a width: `as` between the signed and the unsigned type.
abbrev pub to_unsigned : ℕ → ℤ → ℕ
to_unsigned w (pos n) = n % 2 ^ w
to_unsigned w (negsuc n) = 2 ^ w - 1 - n % 2 ^ w

abbrev pub to_signed : ℕ → ℕ → ℤ
to_signed w v = if ltb v (2 ^ (w - 1)) then pos v else negsuc (2 ^ w - 1 - v)

-- `to_le_bytes`
abbrev pub le_bytes4 : ℕ → List ℕ
le_bytes4 v = (v % 256) ∷ (v / 2 ^ 8 % 256) ∷ (v / 2 ^ 16 % 256) ∷ (v / 2 ^ 24 % 256) ∷ []

abbrev pub le_bytes2 : ℕ → List ℕ
le_bytes2 v = (v % 256) ∷ (v / 2 ^ 8 % 256) ∷ []

unfoldable pub to_bytes : Command → List ℕ
to_bytes c =
    le_bytes4 (to_unsigned 32 c.cmd)
    ++ le_bytes4 c.dest_net
    ++ le_bytes4 (to_unsigned 32 c.dest_net_len)
    ++ le_bytes4 c.next_hop_ip
    ++ le_bytes2 (to_unsigned 16 c.next_hop_port)
    ++ (0 ∷ 0 ∷ [])

unfoldable pub from_bytes : List ℕ → Command
from_bytes b =
    let at : ℕ → ℕ = λ i. get_or b i 0 in
    record {
      cmd = to_signed 32 (le32 (at 0) (at 1) (at 2) (at 3));
      dest_net = le32 (at 4) (at 5) (at 6) (at 7);
      dest_net_len = to_signed 32 (le32 (at 8) (at 9) (at 10) (at 11));
      next_hop_ip = le32 (at 12) (at 13) (at 14) (at 15);
      next_hop_port = to_signed 16 (le16 (at 16) (at 17));
    }

pub record IpNet : Type 0 where
  pub ip : ℕ
  pub mask : ℕ

abbrev pub net_eq : IpNet → IpNet → Bool
net_eq a b = a.ip == b.ip && a.mask == b.mask

pub record RouteEntry : Type 0 where
  pub dst : IpNet
  pub next_hop_ip : ℕ
  pub next_hop_port : ℕ

pub record RouteTable : Type 0 where
  pub entries : List RouteEntry

abbrev pub to_dst : IpNet → RouteEntry → Bool
to_dst dst e = net_eq e.dst dst

-- The entry found is changed in place; without one, an entry is pushed at the end.
unfoldable pub set_entries : List RouteEntry → IpNet → ℕ → ℕ → List RouteEntry
set_entries [] dst ip port = record { dst = dst; next_hop_ip = ip; next_hop_port = port } ∷ []
set_entries (e ∷ es) dst ip port =
    if to_dst dst e
    then record e { next_hop_ip = ip; next_hop_port = port } ∷ es
    else e ∷ set_entries es dst ip port

unfoldable pub set_route : RouteTable → IpNet → ℕ → ℕ → RouteTable
set_route t dst ip port = record { entries = set_entries t.entries dst ip port }

unfoldable pub del_route : RouteTable → IpNet → RouteTable × Bool
del_route t dst = elim (position (to_dst dst) t.entries) [
  | some i ↦ (record { entries = swap_remove i t.entries }, true)
  | none ↦ (t, false)
]

abbrev pub routes_to : ℕ → RouteEntry → Bool
routes_to dst_ip e = e.dst.ip == bit_and dst_ip e.dst.mask

-- `if i != 0 { entries.swap(0, i) }`: `none` is a panic.
abbrev pub move_front : ℕ → List RouteEntry → Option (List RouteEntry)
move_front i entries =
    if i == 0
    then some entries
    else if ltb i (length entries)
    then some (swap_front i entries)
    else none

-- `entries[0]`, which panics on an empty table.
abbrev pub first_hop : Option (List RouteEntry) → Option (RouteTable × Option (ℕ × ℕ))
first_hop none = none
first_hop (some []) = none
first_hop (some (e ∷ es)) =
    some (record { entries = e ∷ es }, some (e.next_hop_ip, e.next_hop_port))

-- The outer `none` is a panic, the inner one no route.
unfoldable pub find_route : RouteTable → ℕ → Option (RouteTable × Option (ℕ × ℕ))
find_route t dst_ip = elim (position (routes_to dst_ip) t.entries) [
  | some i ↦ first_hop (move_front i t.entries)
  | none ↦ some (t, none)
]

-- `clamp(0, 32)`
abbrev pub clamp_len : ℤ → ℕ
clamp_len (pos n) = min n 32
clamp_len (negsuc n) = 0

-- `to_be` on a `u32`
abbrev pub swap32 : ℕ → ℕ
swap32 v = v % 256 * 2 ^ 24 + v / 2 ^ 8 % 256 * 2 ^ 16 + v / 2 ^ 16 % 256 * 2 ^ 8 + v / 2 ^ 24 % 256

unfoldable pub netmask : ℤ → ℕ
netmask prefix_len =
    let bits = clamp_len prefix_len in
    if bits == 0 then 0 else swap32 (0xffff_ffff * 2 ^ (32 - bits) % 2 ^ 32)

-- What `recv` on the control socket does: an error, or the bytes received, at most 20.
pub data Received : Type 0 where
  failed : Received
  got : List ℕ → Received

unfoldable pub command_dst : Command → IpNet
unfolding netmask
command_dst c = let m = netmask c.dest_net_len in record { ip = bit_and c.dest_net m; mask = m }

-- The match on the command's code: 1 sets a route, 2 deletes one, 3 stops, and others are ignored.
unfoldable pub apply_code : ℤ → Command → RouteTable → Bool → RouteTable × Bool
apply_code (negsuc n) c t exit_flag = (t, exit_flag)
apply_code (pos n) c t exit_flag =
    if n == 1
    then (set_route t (command_dst c) c.next_hop_ip (to_unsigned 16 c.next_hop_port), exit_flag)
    else if n == 2
    then ((del_route t (command_dst c)).0, exit_flag)
    else if n == 3
    then (t, true)
    else (t, exit_flag)

unfoldable pub process_cmd : Received → RouteTable → Bool → RouteTable × Bool
process_cmd failed t exit_flag = (t, exit_flag)
process_cmd (got []) t exit_flag = (t, true)
process_cmd (got (b ∷ bs)) t exit_flag =
    if ltb (length (b ∷ bs)) 20
    then (t, exit_flag)
    else (let cmd = from_bytes (b ∷ bs) in apply_code cmd.cmd cmd t exit_flag)
