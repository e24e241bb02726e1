-- ===== src/Udp/Packet.antt =====
-- crates/flannel-core/src/backend/udp/proxy_packet.rs, on a little-endian machine as the code of
-- upstream. A packet is its list of bytes.
pub mod Checksum
pub mod Ttl
pub mod Unreachable
use flannel_rust.Prelude.{
  ℕ, zero, suc, ◌+◌, ◌-◌, ◌*◌, ◌/◌, ◌%◌, ◌^◌, bit_and, Bool, true, false, not, Option, none, some,
  List, [], ◌∷◌, ◌++◌, ltb, leb, ◌==◌, if◌then◌else◌, length, get_or, set, take,
}

-- `u32::from_ne_bytes` and `u16::from_ne_bytes`
abbrev pub le32 : ℕ → ℕ → ℕ → ℕ → ℕ
le32 a b c d = a + b * 2 ^ 8 + c * 2 ^ 16 + d * 2 ^ 24

abbrev pub le16 : ℕ → ℕ → ℕ
le16 a b = a + b * 2 ^ 8

-- The sum over `chunks_exact(4)`; what is left over does not count.
unfoldable pub word_sum : List ℕ → ℕ
word_sum (a ∷ b ∷ c ∷ d ∷ rest) = le32 a b c d + word_sum rest
word_sum (a ∷ b ∷ c ∷ []) = 0
word_sum (a ∷ b ∷ []) = 0
word_sum (a ∷ []) = 0
word_sum [] = 0

-- The loop `while sum >> 16 != 0`, on fuel.
unfoldable pub fold : ℕ → ℕ → ℕ
fold zero sum = sum
fold (suc n) sum =
    let rest = fold n (sum % 2 ^ 16 + sum / 2 ^ 16) in if sum / 2 ^ 16 == 0 then sum else rest

-- Six rounds fold every sum of 64 bits.
unfoldable pub cksum : List ℕ → ℕ
unfolding word_sum fold
cksum bytes = 0xffff - fold 6 (word_sum bytes) % 2 ^ 16

-- `to_be` on a `u16`
abbrev pub swap16 : ℕ → ℕ
swap16 v = v % 256 * 256 + v / 256

-- An access to the first `n` bytes: where there are fewer, the code panics, `none`.
abbrev pub within {ℓ} : {A : Type ℓ} → ℕ → List ℕ → Option A → Option A
within n pkt next = if ltb (length pkt) n then none else next

-- Where an index is out of bounds, the code panics: `none`.
unfoldable pub decrement_ttl : List ℕ → Option (Bool × List ℕ)
decrement_ttl pkt =
    if ltb (length pkt) 9
    then none
    else (let ttl = (get_or pkt 8 0 + 255) % 256 in
        let pkt' = set pkt 8 ttl in
        if ttl == 0
        then some (false, pkt')
        else if ltb (length pkt) 12
        then none
        else (let check = le16 (get_or pkt' 10 0) (get_or pkt' 11 0) in
            let threshold = swap16 (0xffff - 0x100) in
            let inc = swap16 0x100 in
            let patched =
              if leb threshold check
              then ((check + inc) % 2 ^ 16 + 1) % 2 ^ 16
              else (check + inc) % 2 ^ 16 in
            some (true, set (set pkt' 10 (patched % 256)) 11 (patched / 256))))

-- The IP header of the reply, for a packet length, the two bytes of the check field, the own address,
-- and the destination.
unfoldable pub reply_header : ℕ → ℕ → ℕ → ℕ → ℕ → ℕ → ℕ → ℕ → List ℕ
reply_header pktlen check0 check1 tun_addr d0 d1 d2 d3 =
    0x45
    ∷ 0
    ∷ (pktlen / 256 % 256)
    ∷ (pktlen % 256)
    ∷ 0
    ∷ 0
    ∷ 0
    ∷ 0
    ∷ 8
    ∷ 1
    ∷ check0
    ∷ check1
    ∷ (tun_addr % 256)
    ∷ (tun_addr / 2 ^ 8 % 256)
    ∷ (tun_addr / 2 ^ 16 % 256)
    ∷ (tun_addr / 2 ^ 24 % 256)
    ∷ d0
    ∷ d1
    ∷ d2
    ∷ d3
    ∷ []

-- The ICMP message: type 3, code 0, the check field, an unused word, and the offender's first bytes.
unfoldable pub unreachable : ℕ → ℕ → List ℕ → List ℕ
unreachable check0 check1 quoted = 3 ∷ 0 ∷ check0 ∷ check1 ∷ 0 ∷ 0 ∷ 0 ∷ 0 ∷ quoted

-- A part of the packet with the check of the part, computed with a check field of 0, written in it.
abbrev pub with_check : (ℕ → ℕ → List ℕ) → List ℕ
with_check part = let check = cksum (part 0 0) in part (check % 256) (check / 256)

-- What is copied of the offender after its length has been checked.
unfoldable pub reply : List ℕ → ℕ → ℕ → List ℕ
reply offender tun_addr off_iph_len =
    let header : ℕ → ℕ → List ℕ = λ c0 c1.
      reply_header (20 + 8 + off_iph_len + 8) c0 c1 tun_addr (get_or offender 12 0)
        (get_or offender 13 0) (get_or offender 14 0) (get_or offender 15 0) in
    with_check header ++ with_check (λ c0 c1. unreachable c0 c1 (take (off_iph_len + 8) offender))

-- `none` is a panic, `some none` no reply.
unfoldable pub build_net_unreachable : List ℕ → ℕ → Option (Option (List ℕ))
unfolding reply
build_net_unreachable offender tun_addr =
    let off_iph_len = bit_and (get_or offender 0 0) 0x0f * 4 in
    let frag_off = get_or offender 6 0 * 256 + get_or offender 7 0 in
    if ltb (length offender) 20
    then some none
    else within 1 offender (
        if leb 60 off_iph_len
        then some none
        else within 10 offender (
            if get_or offender 9 0 == 1
            then some none
            else within 8 offender (
                if not (bit_and frag_off 0x1fff == 0)
                then some none
                else if ltb (length offender) (off_iph_len + 8)
                then some none
                else within 16 offender (
                    within (off_iph_len + 8) offender
                      (some (some (reply offender tun_addr off_iph_len)))))))
