-- ===== src/Tests/Udp.antt =====
-- Runs of crates/flannel-core/src/backend/udp, on the sample header of the unit tests.
use flannel_rust.Prelude.{
  ℕ, ◌-◌, ◌%◌, ◌≡◌, ◌<◌, ◌↔◌, refl, arith, true, none, some, List, [], ◌∷◌, ◌++◌,
}
use flannel_rust.Prelude.Int.{pos}
use flannel_rust.Ip.V4.{Ip4Net, contains}
use flannel_rust.Udp.Packet.{cksum, decrement_ttl, build_net_unreachable}
use flannel_rust.Udp.Packet.Checksum.{be_sum, cksum_valid_iff}
use flannel_rust.Udp.Packet.Ttl.{header, patch, decrement_ttl_valid}
use flannel_rust.Udp.Packet.Unreachable.{IsReportable, IsReply, build_net_unreachable_lem}
use flannel_rust.Udp.Routes.{
  Command, IpNet, RouteEntry, RouteTable, got, to_bytes, routes_to, swap32, command_dst,
}
use flannel_rust.Udp.Routes.Codec.{IsCommand}
use flannel_rust.Udp.Routes.Table.{IsKeyed}
use flannel_rust.Udp.Routes.Lookup.{command_routes}
use flannel_rust.Udp.Proxy.{Proxy, Poll, ready}

abbrev rest : List ℕ
rest = 0xac ∷ 0x10 ∷ 0x0a ∷ 0x63 ∷ 0xac ∷ 0x10 ∷ 0x0a ∷ 0x0c ∷ []

-- The sample header with a TTL and the two bytes of its check field.
abbrev sample : ℕ → ℕ → ℕ → List ℕ
sample ttl c0 c1 = header 0x45 0 0 0x3c 0x1c 0x46 0x40 0 ttl 6 c0 c1 rest

abbrev payload : List ℕ
payload = 1 ∷ 2 ∷ 3 ∷ 4 ∷ 5 ∷ 6 ∷ 7 ∷ 8 ∷ []

cksum_valid_iff_example :
    (cksum (sample 64 0xb1 0xe6) ≡ 0)
    ↔ ((0 < be_sum (sample 64 0xb1 0xe6)) × (be_sum (sample 64 0xb1 0xe6) % 65535 ≡ 0))
cksum_valid_iff_example =
    cksum_valid_iff (sample 64 0xb1 0xe6) (ground arith) (omega arith) (omega arith)

sample_valid : cksum (sample 64 0xb1 0xe6) ≡ 0
sample_valid = cksum_valid_iff_example.1 (omega arith, omega arith)

decrement_ttl_valid_example :
    (check : ℕ) × (decrement_ttl (sample 64 0xb1 0xe6 ++ payload)
      ≡ some (
        true,
        patch 0x45 0 0 0x3c 0x1c 0x46 0x40 0 64 6 0xb1 0xe6 rest (64 - 1) check ++ payload,
      ))
    × (cksum (patch 0x45 0 0 0x3c 0x1c 0x46 0x40 0 64 6 0xb1 0xe6 rest (64 - 1) check) ≡ 0)
decrement_ttl_valid_example =
    decrement_ttl_valid 0x45 0 0 0x3c 0x1c 0x46 0x40 0 64 6 0xb1 0xe6 rest payload (ground arith)
      (omega arith) (omega arith) sample_valid

-- With a TTL of 0, the check field of the sample is f1 e6.
zero_valid : cksum (sample 0 0xf1 0xe6) ≡ 0
zero_valid =
    (cksum_valid_iff (sample 0 0xf1 0xe6) (ground arith) (omega arith) (omega arith)).1
      (omega arith, omega arith)

abbrev offender : List ℕ
offender = sample 64 0xb1 0xe6 ++ payload

offender-IsReportable : IsReportable offender
offender-IsReportable = record {
  header = omega arith;
  header_len = omega arith;
  no_icmp = λ e. omega (arith, e);
  first_fragment = refl;
  payload = omega arith;
}

build_net_unreachable_lem_example :
    (pkt : List ℕ) × (build_net_unreachable offender 0x0100_630a ≡ some (some pkt))
    × IsReply offender 0x0100_630a pkt
build_net_unreachable_lem_example =
    build_net_unreachable_lem offender 0x0100_630a (ground arith) offender-IsReportable

-- A command that sets the route to 10.5.3.0/24, in network order, by 192.168.0.2 and port 8285.
abbrev command : Command
command = record {
  cmd = pos 1;
  dest_net = 0x0003_050a;
  dest_net_len = pos 24;
  next_hop_ip = 0x0200_a8c0;
  next_hop_port = pos 8285;
}

command-IsCommand : IsCommand command
command-IsCommand = record {
  cmd = omega arith;
  dest_net = omega arith;
  dest_net_len = omega arith;
  next_hop_ip = omega arith;
  next_hop_port = omega arith;
}

abbrev node_net : Ip4Net
node_net = record { ip = 0x0a05_0300; prefix_len = 24 }

abbrev entry : RouteEntry
entry = record { dst = command_dst command; next_hop_ip = 0x0200_a8c0; next_hop_port = 8285 }

command_routes_example : routes_to (swap32 0x0a05_0307) entry ≡ contains node_net 0x0a05_0307
command_routes_example =
    command_routes command entry node_net 0x0a05_0307 (omega arith) (omega arith) (omega arith) refl
      refl refl

abbrev two_dst : IpNet
two_dst = record { ip = 0x0004_050a; mask = 0x00ff_ffff }

abbrev two : RouteTable
two = record {
  entries =
      (record {
        dst = record { ip = 0x0003_050a; mask = 0x00ff_ffff };
        next_hop_ip = 1;
        next_hop_port = 8285;
      })
      ∷ (record { dst = two_dst; next_hop_ip = 2; next_hop_port = 8285 })
      ∷ [];
}

two-IsKeyed : IsKeyed two
two-IsKeyed dst = ground arith

-- One route is set, then a packet is read from the tun.
abbrev polls : List Poll
polls =
    ready (some (got (to_bytes command))) none
    ∷ ready none (some ((record { tun = got offender; sock = got [] }) ∷ []))
    ∷ []
