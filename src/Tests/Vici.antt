-- ===== src/Tests/Vici.antt =====
-- Runs of crates/flannel-core/src/backend/ipsec/vici.rs on a connection with a child.
use flannel_rust.Prelude.{◌≡◌, ◌↔◌, refl, arith, some, [], ◌∷◌, ◌++◌}
use flannel_rust.Prelude.Result.{Result, ok}
use flannel_rust.Prelude.Text.{as_bytes}
use flannel_rust.Vici.{
  Bytes, Message, end, ViciError, with_key, with_list, with_section, encode, parse, get_str,
}
use flannel_rust.Vici.Codec.{IsEncodable, parse-encode, parse_stray_end}
use flannel_rust.Vici.Request.{write_packet, psk, unload_message, call}
use flannel_rust.Vici.Request.Reply.{packets, call_succeeds_iff}

-- Every text is valid.
abbrev valid : Bytes → Bytes
valid b = b

abbrev conn : Message
conn =
    with_section
      (with_list (with_section end (as_bytes "local-1") psk) (as_bytes "ts")
        (as_bytes "10.0" ∷ [] ∷ []))
      (as_bytes "children") end

conn-IsEncodable : IsEncodable valid conn
unfolding IsEncodable
conn-IsEncodable = (
  ((omega arith, refl), (((omega arith, refl), omega arith), tt)),
  (((omega arith, refl), (omega arith, (omega arith, tt))), (((omega arith, refl), tt), tt)),
)

parse-encode_example : parse valid (encode conn) ≡ ok conn
parse-encode_example = parse-encode valid conn conn-IsEncodable

parse_stray_end_example : parse valid (encode conn ++ (2 ∷ [])) ≡ ok conn
parse_stray_end_example = parse_stray_end valid conn conn-IsEncodable

abbrev taken : Bytes → Result ViciError (Unit {0})
taken b = ok tt

abbrev yes : Message
yes = with_key end (as_bytes "success") (as_bytes "yes")

yes-IsEncodable : IsEncodable valid yes
unfolding IsEncodable
yes-IsEncodable = (((omega arith, refl), omega arith), tt)

call_succeeds_iff_example :
    (call valid taken
        (as_bytes "unload-conn")
        (unload_message (as_bytes "c1"))
        (packets ((7, 1 ∷ 2 ∷ []) ∷ []) (write_packet 1 (encode yes) ++ []))
      ≡ ok [])
    ↔ (get_str valid yes (as_bytes "success") ≡ some (as_bytes "yes"))
unfolding encode
call_succeeds_iff_example =
    call_succeeds_iff valid taken (as_bytes "unload-conn") (unload_message (as_bytes "c1")) yes
      ((7, 1 ∷ 2 ∷ []) ∷ []) [] refl ((refl, refl, omega arith), tt) yes-IsEncodable (omega arith)
