-- ===== src/Ip/Parse.antt =====
-- The `FromStr` of crates/flannel-core/src/ip/ipnet.rs and ip6net.rs. The parsers of `Ipv4Addr`, `Ipv6Addr`
-- and `u32` in the standard library are parameters.
use Prim.Native.Char.{code}
use Prim.Native.String.{String}
use flannel_rust.Prelude.{ℕ, Bool, false, Option, none, some, ltb, ◌==◌, ◌||◌, if◌then◌else◌}
use flannel_rust.Prelude.Result.{Result, ok, err, ◌>>=◌}
use flannel_rust.Ip.V4
use flannel_rust.Ip.V4.{Ip4, Ip4Net}
use flannel_rust.Ip.V6
use flannel_rust.Ip.V6.{Ip6, Ip6Net}

pub data IpParseError : Type 0 where
  invalid_addr invalid_net : String → IpParseError

-- `s.contains(c)` and `s.split_once(c)` for a character.
abbrev pub contains_char : ℕ → String → Bool
contains_char k String.[] = false
contains_char k (String.◌∷◌ c s) = code c == k || contains_char k s

abbrev pub split_once : ℕ → String → Option (String × String)
split_once k String.[] = none
split_once k (String.◌∷◌ c s) =
    let rest : Option (String × String) = elim (split_once k s) [
      | none ↦ none
      | some (a, b) ↦ some (String.◌∷◌ c a, b)
    ] in
    if code c == k then some (String.[], s) else rest

module _ (parse_addr : String → Option ℕ) (parse_u32 : String → Option ℕ) where
  unfoldable pub ip4_from_str : String → Result IpParseError Ip4
  ip4_from_str s = elim (parse_addr s) [ none ↦ err (invalid_addr s) | some a ↦ ok a ]

  unfoldable pub net4_from_parts : String → String → String → Result IpParseError Ip4Net
  unfolding ip4_from_str
  net4_from_parts s addr prefix = elim (parse_u32 prefix) [
    | none ↦ err (invalid_net s)
    | some n ↦
        if ltb 32 n
        then err (invalid_net s)
        else ip4_from_str addr >>= λ a. ok (V4.network (record { ip = a; prefix_len = n }))
  ]

  unfoldable pub net4_from_str : String → Result IpParseError Ip4Net
  unfolding net4_from_parts
  net4_from_str s = elim (split_once 0x2f s) [
    | none ↦ err (invalid_net s)
    | some (addr, prefix) ↦ net4_from_parts s addr prefix
  ]

module _ (parse_addr : String → Option Ip6) (parse_u32 : String → Option ℕ) where
  unfoldable pub ip6_from_str : String → Result IpParseError Ip6
  ip6_from_str s = elim (parse_addr s) [ none ↦ err (invalid_addr s) | some a ↦ ok a ]

  unfoldable pub net6_from_parts : String → String → String → Result IpParseError Ip6Net
  unfolding ip6_from_str
  net6_from_parts s addr prefix = elim (parse_u32 prefix) [
    | none ↦ err (invalid_net s)
    | some n ↦
        if ltb 128 n
        then err (invalid_net s)
        else ip6_from_str addr >>= λ a. ok (V6.network (record { ip = a; prefix_len = n }))
  ]

  unfoldable pub net6_from_str : String → Result IpParseError Ip6Net
  unfolding net6_from_parts
  net6_from_str s = elim (split_once 0x2f s) [
    | none ↦ err (invalid_net s)
    | some (addr, prefix) ↦ net6_from_parts s addr prefix
  ]
