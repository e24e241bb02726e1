-- ===== src/Udp/Routes/Lookup.antt =====
-- What the routes that the control commands set route: the networks of IPv4 addresses.
use flannel_rust.Prelude.{
  ℕ, ◌+◌, ◌*◌, ◌/◌, ◌%◌, ◌^◌, ◌≤◌, ◌<◌, ◌≡◌, refl, sym, ap, ◌∙◌, arith, ◌==◌, bit_and,
}
use flannel_rust.Prelude.Int.{pos}
use flannel_rust.Prelude.Mask.{and_le, and_fields}
use flannel_rust.Ip.V4.{Ip4, Ip4Net, mask_value, contains, net_mask}
use flannel_rust.Ip.V4.Block.{IsWord}
use flannel_rust.Udp.Routes.{Command, RouteEntry, command_dst, netmask, routes_to, swap32}

-- A word from its four bytes, the most significant first.
abbrev word : ℕ → ℕ → ℕ → ℕ → ℕ
word a b c d = ((a * 2 ^ 8 + b) * 2 ^ 8 + c) * 2 ^ 8 + d

abbrev byte : ℕ → ℕ → ℕ
byte i v = v / 2 ^ i % 256

and_words :
    (a b c d a' b' c' d' : ℕ)
    → b < 256
    → c < 256
    → d < 256
    → b' < 256
    → c' < 256
    → d' < 256
    → bit_and (word a b c d) (word a' b' c' d')
      ≡ word (bit_and a a') (bit_and b b') (bit_and c c') (bit_and d d')
and_words a b c d a' b' c' d' hb hc hd hb' hc' hd' =
    rw
      (
        and_fields 8 ((a * 2 ^ 8 + b) * 2 ^ 8 + c) d ((a' * 2 ^ 8 + b') * 2 ^ 8 + c') d' hd hd',
        and_fields 8 (a * 2 ^ 8 + b) c (a' * 2 ^ 8 + b') c' hc hc',
        and_fields 8 a b a' b' hb hb',
      )
      refl

from_word : (v : ℕ) → v < 2 ^ 32 → v ≡ word (byte 24 v) (byte 16 v) (byte 8 v) (v % 256)
from_word v h = omega arith

swap32-word :
    (a b c d : ℕ) → a < 256 → b < 256 → c < 256 → d < 256 → swap32 (word a b c d) ≡ word d c b a
swap32-word a b c d ha hb hc hd = omega arith

swap32-words : (v : ℕ) → swap32 v ≡ word (v % 256) (byte 8 v) (byte 16 v) (byte 24 v)
swap32-words v = omega arith

and_byte : (a b : ℕ) → a < 256 → bit_and a b < 256
and_byte a b h = omega (arith, and_le a a b (omega arith))

-- `&` does not mind the byte order.
swap32-and :
    (x y : ℕ) → x < 2 ^ 32 → y < 2 ^ 32 → bit_and (swap32 x) (swap32 y) ≡ swap32 (bit_and x y)
swap32-and x y hx hy =
    let lt : (i v : ℕ) → byte i v < 256 = λ i v. omega arith in
    let ltx : x % 256 < 256 = omega arith in
    let lty : y % 256 < 256 = omega arith in
    let straight =
      ap (λ (t : ℕ). bit_and t y) (from_word x hx)
      ∙ ap (bit_and (word (byte 24 x) (byte 16 x) (byte 8 x) (x % 256))) (from_word y hy)
      ∙ and_words (byte 24 x) (byte 16 x) (byte 8 x) (x % 256) (byte 24 y) (byte 16 y) (byte 8 y)
          (y % 256) (lt 16 x) (lt 8 x) ltx (lt 16 y) (lt 8 y) lty in
    rw (swap32-words x, swap32-words y)
      (and_words (x % 256) (byte 8 x) (byte 16 x) (byte 24 x) (y % 256) (byte 8 y) (byte 16 y)
          (byte 24 y) (lt 8 x) (lt 16 x) (lt 24 x) (lt 8 y) (lt 16 y) (lt 24 y)
        ∙ sym (
            ap swap32 straight
            ∙ swap32-word (bit_and (byte 24 x) (byte 24 y)) (bit_and (byte 16 x) (byte 16 y))
                (bit_and (byte 8 x) (byte 8 y)) (bit_and (x % 256) (y % 256))
                (and_byte _ _ (lt 24 x)) (and_byte _ _ (lt 16 x)) (and_byte _ _ (lt 8 x))
                (and_byte _ _ ltx)))

swap32-twice : (v : ℕ) → v < 2 ^ 32 → swap32 (swap32 v) ≡ v
swap32-twice v h = omega arith

swap32-eq : (x y : ℕ) → x < 2 ^ 32 → y < 2 ^ 32 → (swap32 x == swap32 y) ≡ (x == y)
swap32-eq x y hx hy =
    let back : swap32 x ≡ swap32 y → x ≡ y =
      λ e. sym (swap32-twice x hx) ∙ ap swap32 e ∙ swap32-twice y hy in
    let forth : x ≡ y → swap32 x ≡ swap32 y = λ e. ap swap32 e in
    tests (swap32 x) (swap32 y) x y back forth
  where
    tests : (a b x y : ℕ) → (a ≡ b → x ≡ y) → (x ≡ y → a ≡ b) → (a == b) ≡ (x == y)
    tests a b x y back forth = ground (arith, back, forth)

netmask-mask_value : (p : ℕ) → p ≤ 32 → netmask (pos p) ≡ swap32 (mask_value p)
unfolding netmask mask_value
netmask-mask_value p h = ground arith

mask_value-lt : (p : ℕ) → mask_value p < 2 ^ 32
unfolding mask_value
mask_value-lt p = ground arith

-- The entry that a command sets for a network, its address and prefix handed over as the code does, the
-- address in network order, routes exactly the addresses that the network contains.
pub command_routes :
    (c : Command) (e : RouteEntry) (n : Ip4Net) (ip : Ip4)
    → IsWord n.ip
    → IsWord ip
    → n.prefix_len ≤ 32
    → c.dest_net ≡ swap32 n.ip
    → c.dest_net_len ≡ pos n.prefix_len
    → e.dst ≡ command_dst c
    → routes_to (swap32 ip) e ≡ contains n ip
unfolding contains net_mask command_dst mask_value
command_routes c e n ip hn hip hp net len entry =
    let m = mask_value n.prefix_len in
    let hm = mask_value-lt n.prefix_len in
    rw
      (
        entry,
        net,
        len,
        netmask-mask_value n.prefix_len hp,
        swap32-and n.ip m hn hm,
        swap32-and ip m hip hm,
      )
      (swap32-eq (bit_and n.ip m) (bit_and ip m) (omega (arith, and_le n.ip n.ip m (omega arith)))
        (omega (arith, and_le ip ip m (omega arith))))
