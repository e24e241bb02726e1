-- ===== src/Udp/Packet/Unreachable.antt =====
-- The ICMP reply to a packet without a route.
use flannel_rust.Prelude.{
  ℕ, zero, suc, ◌+◌, ◌*◌, ◌/◌, ◌%◌, ◌^◌, ◌≤◌, ◌<◌, ◌≡◌, ◌≢◌, refl, ap, ◌∙◌, arith, List, [], ◌∷◌,
  All, length, Option, some, Option-cases, inl, inr, get_or, take, drop,
}
use flannel_rust.Prelude.Mask.{and_low}
use flannel_rust.Udp.Packet.{
  word_sum, cksum, with_check, reply_header, unreachable, reply, build_net_unreachable,
}
use flannel_rust.Udp.Packet.Checksum.{IsByte, cksum_fill, word_sum-bound}

-- The packets that a reply is sent about: a whole IP header of less than 60 bytes and eight bytes
-- after it, no ICMP message, and a first fragment.
pub record IsReportable (offender : List ℕ) : Type 0 where
  pub header : 20 ≤ length offender
  pub header_len : get_or offender 0 0 % 16 * 4 < 60
  pub no_icmp : get_or offender 9 0 ≢ 1
  pub first_fragment : (get_or offender 6 0 * 256 + get_or offender 7 0) % 2 ^ 13 ≡ 0
  pub payload : get_or offender 0 0 % 16 * 4 + 8 ≤ length offender

build-IsReportable :
    (offender : List ℕ) (tun_addr : ℕ)
    → IsReportable offender
    → build_net_unreachable offender tun_addr
      ≡ some (some (reply offender tun_addr (get_or offender 0 0 % 16 * 4)))
unfolding build_net_unreachable
build-IsReportable offender tun_addr h =
    rw
      (
        and_low 4 (get_or offender 0 0),
        and_low 13 (get_or offender 6 0 * 256 + get_or offender 7 0),
      )
      (ground (arith, h.header, h.header_len, h.no_icmp, h.first_fragment, h.payload))

-- Whatever the packet, no index is out of bounds.
pub build_net_unreachable_total :
    (offender : List ℕ) (tun_addr : ℕ)
    → (answer : Option (List ℕ)) × (build_net_unreachable offender tun_addr ≡ some answer)
unfolding build_net_unreachable
build_net_unreachable_total offender tun_addr =
    elim (Option-cases (build_net_unreachable offender tun_addr)) [
      | inl panic ↦ absurd (ground (arith, panic))
      | inr answer ↦ answer
    ]

pub get_or-IsByte : (xs : List ℕ) (i : ℕ) → All IsByte xs → IsByte (get_or xs i 0)
get_or-IsByte [] i h = omega arith
get_or-IsByte (x ∷ xs) zero h = h.0
get_or-IsByte (x ∷ xs) (suc i) h = get_or-IsByte xs i h.1

All-take : (n : ℕ) (xs : List ℕ) → All IsByte xs → All IsByte (take n xs)
All-take zero xs h = tt
All-take (suc n) [] h = tt
All-take (suc n) (x ∷ xs) h = (h.0, All-take n xs h.1)

length-take : (n : ℕ) (xs : List ℕ) → n ≤ length xs → length (take n xs) ≡ n
length-take zero xs h = refl
length-take (suc n) [] h = absurd (omega arith)
length-take (suc n) (x ∷ xs) h = ap suc (length-take n xs (omega arith))

window :
    (i : ℕ) (xs : List ℕ)
    → i + 4 ≤ length xs
    → (get_or xs i 0
        ∷ get_or xs (suc i) 0
        ∷ get_or xs (suc (suc i)) 0
        ∷ get_or xs (suc (suc (suc i))) 0
        ∷ [])
      ≡ take 4 (drop i xs)
window zero [] h = absurd (omega (arith, h))
window zero (a ∷ []) h = absurd (omega (arith, h))
window zero (a ∷ b ∷ []) h = absurd (omega (arith, h))
window zero (a ∷ b ∷ c ∷ []) h = absurd (omega (arith, h))
window zero (a ∷ b ∷ c ∷ d ∷ xs) h = refl
window (suc i) [] h = absurd (omega (arith, h))
window (suc i) (x ∷ xs) h = window i xs (omega (arith, h))

header_filled :
    (len c0 c1 tun_addr d0 d1 d2 d3 : ℕ)
    → word_sum (reply_header len c0 c1 tun_addr d0 d1 d2 d3)
      ≡ word_sum (reply_header len 0 0 tun_addr d0 d1 d2 d3) + 65536 * (c0 + 256 * c1)
unfolding word_sum reply_header
header_filled len c0 c1 tun_addr d0 d1 d2 d3 = omega arith

unreachable_filled :
    (c0 c1 : ℕ) (quoted : List ℕ)
    → word_sum (unreachable c0 c1 quoted)
      ≡ word_sum (unreachable 0 0 quoted) + 65536 * (c0 + 256 * c1)
unfolding word_sum unreachable
unreachable_filled c0 c1 quoted = omega arith

header_size :
    (len tun_addr d0 d1 d2 d3 : ℕ)
    → IsByte d0
    → IsByte d1
    → IsByte d2
    → IsByte d3
    → (0 < word_sum (reply_header len 0 0 tun_addr d0 d1 d2 d3))
      × (word_sum (reply_header len 0 0 tun_addr d0 d1 d2 d3) < 2 ^ 63)
unfolding word_sum reply_header
header_size len tun_addr d0 d1 d2 d3 h0 h1 h2 h3 = (omega arith, omega arith)

unreachable_size :
    (quoted : List ℕ)
    → All IsByte quoted
    → length quoted ≤ 2 ^ 30
    → (0 < word_sum (unreachable 0 0 quoted)) × (word_sum (unreachable 0 0 quoted) < 2 ^ 63)
unfolding word_sum unreachable
unreachable_size quoted h short =
    let bound = word_sum-bound quoted h in (omega arith, omega (arith, bound, short))

header_valid :
    (len tun_addr d0 d1 d2 d3 : ℕ)
    → IsByte d0
    → IsByte d1
    → IsByte d2
    → IsByte d3
    → cksum (with_check (λ c0 c1. reply_header len c0 c1 tun_addr d0 d1 d2 d3)) ≡ 0
header_valid len tun_addr d0 d1 d2 d3 h0 h1 h2 h3 =
    let base = reply_header len 0 0 tun_addr d0 d1 d2 d3 in
    let (positive, bound) = header_size len tun_addr d0 d1 d2 d3 h0 h1 h2 h3 in
    cksum_fill base _ positive bound
      (header_filled len (cksum base % 256) (cksum base / 256) tun_addr d0 d1 d2 d3 ∙ omega arith)

unreachable_valid :
    (quoted : List ℕ)
    → All IsByte quoted
    → length quoted ≤ 2 ^ 30
    → cksum (with_check (λ c0 c1. unreachable c0 c1 quoted)) ≡ 0
unreachable_valid quoted h short =
    let base = unreachable 0 0 quoted in
    let (positive, bound) = unreachable_size quoted h short in
    cksum_fill base _ positive bound
      (unreachable_filled (cksum base % 256) (cksum base / 256) quoted ∙ omega arith)

-- What a reply is: an IPv4 header without options, and an ICMP message.
pub record IsReply (offender : List ℕ) (tun_addr : ℕ) (reply : List ℕ) : Type 0 where
  pub version : get_or reply 0 0 ≡ 0x45
  pub ttl : get_or reply 8 0 ≡ 8
  pub source :
      take 4 (drop 12 reply)
      ≡ (tun_addr % 256)
        ∷ (tun_addr / 2 ^ 8 % 256)
        ∷ (tun_addr / 2 ^ 16 % 256)
        ∷ (tun_addr / 2 ^ 24 % 256)
        ∷ []
  pub total_length : length reply ≡ 36 + get_or offender 0 0 % 16 * 4
  pub length_field : get_or reply 2 0 * 256 + get_or reply 3 0 ≡ length reply
  pub header_valid : cksum (take 20 reply) ≡ 0
  pub message_valid : cksum (drop 20 reply) ≡ 0
  pub destination : take 4 (drop 16 reply) ≡ take 4 (drop 12 offender)
  pub icmp : get_or reply 9 0 ≡ 1
  pub net_unreachable : (get_or reply 20 0 ≡ 3) × (get_or reply 21 0 ≡ 0)
  pub quoted : drop 28 reply ≡ take (get_or offender 0 0 % 16 * 4 + 8) offender

reply-IsReply :
    (offender : List ℕ) (tun_addr : ℕ)
    → All IsByte offender
    → IsReportable offender
    → IsReply offender tun_addr (reply offender tun_addr (get_or offender 0 0 % 16 * 4))
unfolding reply reply_header unreachable
reply-IsReply offender tun_addr bytes h =
    let n = get_or offender 0 0 % 16 * 4 in
    let quoted = length-take (n + 8) offender h.payload in
    let total : length (reply offender tun_addr n) ≡ 36 + n = omega (arith, quoted) in
    record {
      version = refl;
      ttl = refl;
      source = refl;
      total_length = total;
      length_field = omega (arith, quoted, h.header_len);
      header_valid =
          header_valid _ tun_addr _ _ _ _ (get_or-IsByte offender 12 bytes)
            (get_or-IsByte offender 13 bytes) (get_or-IsByte offender 14 bytes)
            (get_or-IsByte offender 15 bytes);
      message_valid =
          unreachable_valid _ (All-take (n + 8) offender bytes)
            (omega (arith, quoted, h.header_len));
      destination = window 12 offender (omega (arith, h.header));
      icmp = refl;
      net_unreachable = (refl, refl);
      quoted = refl;
    }

-- For a packet of bytes that a reply is sent about, the reply is built: an IPv4 packet with a header of
-- 20 bytes, from the own address, whose bytes are in network order, to the sender, with a TTL of 8, the
-- right total length and a valid header checksum, that carries a network-unreachable message with a
-- valid checksum and quotes the header and the next eight bytes.
pub build_net_unreachable_lem :
    (offender : List ℕ) (tun_addr : ℕ)
    → All IsByte offender
    → IsReportable offender
    → (pkt : List ℕ) × (build_net_unreachable offender tun_addr ≡ some (some pkt))
      × IsReply offender tun_addr pkt
build_net_unreachable_lem offender tun_addr bytes h = (
  reply offender tun_addr (get_or offender 0 0 % 16 * 4),
  build-IsReportable offender tun_addr h,
  reply-IsReply offender tun_addr bytes h,
)

-- No reply is built about any other packet: not about ICMP messages, later fragments, or packets
-- too short to be quoted.
pub build_net_unreachable-IsReportable :
    (offender pkt : List ℕ) (tun_addr : ℕ)
    → build_net_unreachable offender tun_addr ≡ some (some pkt)
    → IsReportable offender
unfolding build_net_unreachable
build_net_unreachable-IsReportable offender pkt tun_addr e =
    let low = and_low 4 (get_or offender 0 0) in
    let low' = and_low 13 (get_or offender 6 0 * 256 + get_or offender 7 0) in
    record {
      header = ground arith;
      header_len = ground arith;
      no_icmp = ground arith;
      first_fragment = ground arith;
      payload = ground arith;
    }
