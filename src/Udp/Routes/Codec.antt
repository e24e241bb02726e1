-- ===== src/Udp/Routes/Codec.antt =====
-- Commands as bytes.
use flannel_rust.Prelude.{ℕ, ◌-◌, ◌/◌, ◌%◌, ◌^◌, ◌<◌, ◌≡◌, refl, arith, length}
use flannel_rust.Prelude.Int.{ℤ, pos, negsuc}
use flannel_rust.Udp.Packet.{le32, le16}
use flannel_rust.Udp.Routes.{Command, to_unsigned, to_signed, to_bytes, from_bytes}

-- The integers of a signed type of `w` bits.
abbrev pub IsSigned : ℕ → ℤ → Type 0
IsSigned w (pos n) = n < 2 ^ (w - 1)
IsSigned w (negsuc n) = n < 2 ^ (w - 1)

pub record IsCommand (c : Command) : Type 0 where
  pub cmd : IsSigned 32 c.cmd
  pub dest_net : c.dest_net < 2 ^ 32
  pub dest_net_len : IsSigned 32 c.dest_net_len
  pub next_hop_ip : c.next_hop_ip < 2 ^ 32
  pub next_hop_port : IsSigned 16 c.next_hop_port

signed32 : (z : ℤ) → IsSigned 32 z → to_signed 32 (to_unsigned 32 z) ≡ z
signed32 (pos n) h = ground arith
signed32 (negsuc n) h = ground arith

signed16 : (z : ℤ) → IsSigned 16 z → to_signed 16 (to_unsigned 16 z) ≡ z
signed16 (pos n) h = ground arith
signed16 (negsuc n) h = ground arith

to_unsigned-lt : (z : ℤ) → (to_unsigned 32 z < 2 ^ 32) × (to_unsigned 16 z < 2 ^ 16)
to_unsigned-lt (pos n) = (omega arith, omega arith)
to_unsigned-lt (negsuc n) = (omega arith, omega arith)

le32-bytes :
    (v : ℕ)
    → v < 2 ^ 32
    → le32 (v % 256) (v / 2 ^ 8 % 256) (v / 2 ^ 16 % 256) (v / 2 ^ 24 % 256) ≡ v
le32-bytes v h = omega arith

le16-bytes : (v : ℕ) → v < 2 ^ 16 → le16 (v % 256) (v / 2 ^ 8 % 256) ≡ v
le16-bytes v h = omega arith

-- A command whose fields are in the range of their types has 20 bytes, and reading them gives the
-- command back.
pub command_roundtrip :
    (c : Command) → IsCommand c → (length (to_bytes c) ≡ 20) × (from_bytes (to_bytes c) ≡ c)
unfolding to_bytes from_bytes
command_roundtrip c h =
    let a = le32-bytes (to_unsigned 32 c.cmd) (to_unsigned-lt c.cmd).0 in
    let b = le32-bytes c.dest_net h.dest_net in
    let d = le32-bytes (to_unsigned 32 c.dest_net_len) (to_unsigned-lt c.dest_net_len).0 in
    let e = le32-bytes c.next_hop_ip h.next_hop_ip in
    let f = le16-bytes (to_unsigned 16 c.next_hop_port) (to_unsigned-lt c.next_hop_port).1 in
    (
      refl,
      rw
          (
            a,
            b,
            d,
            e,
            f,
            signed32 c.cmd h.cmd,
            signed32 c.dest_net_len h.dest_net_len,
            signed16 c.next_hop_port h.next_hop_port,
          )
          refl,
    )
