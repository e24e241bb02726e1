-- ===== src/Tests/Flags.antt =====
-- Runs of crates/flannel-core/src/flags.rs.
use Prim.Native.String.{String, char_at}
use text.Mathlib.Text.{◌==◌ as str_eq}
use flannel_rust.Prelude.{
  if◌then◌else◌, ◌≡◌, refl, true, false, Option, none, some, List, [], ◌∷◌, map,
}
use flannel_rust.Prelude.Int.{pos, negsuc}
use flannel_rust.Prelude.Radix.{i64_from_str_radix, magnitude, negated}
use flannel_rust.Prelude.Result.{ok, err}
use flannel_rust.Flags.{
  int_range, Flag, FlagSet, bool_kind, int_kind, slice_kind, bool_value, int_value, slice_value,
  unset_flag, find_flag, parse_bool, parse_int, split_sign, split_radix, new_value, set_flag_value,
  put_flag, register, new_flag_set, get_slice,
}
use flannel_rust.Flags.Applied.{from_env, all_errors, set_flags_from_env_lem}
use flannel_rust.Flags.Command.{inline_arg, set_and_parse, parse_inline}
use flannel_rust.Flags.Dashes.{parse_one_dash}
use flannel_rust.Flags.Env.{set_flags_from_env}
use flannel_rust.Flags.Numbers.{minus_sign, hex}
use flannel_rust.Flags.Integers.{parse_int_digits, parse_int_inner_sign}
use flannel_rust.Flags.Parse.{parse, parse_args, arg_step, lex_arg, lex_body}
use flannel_rust.Flags.Reach.{Reaches, fresh, with_slice, parsed, Reaches-Readable}
use flannel_rust.Flags.Repeat.{parse-get_slice}
use flannel_rust.Flags.Rest.{EndsWith, parse-remaining}

abbrev masq : Flag
masq = unset_flag "ip-masq" bool_kind (bool_value false) ""

abbrev port : Flag
port = unset_flag "healthz-port" int_kind (int_value (pos 0)) ""

abbrev iface : Flag
iface = unset_flag "iface" slice_kind (slice_value []) ""

abbrev flanneld : FlagSet
flanneld = record {
  set_name = "flannel";
  flags = masq ∷ port ∷ iface ∷ [];
  remaining = [];
  tolerated_unknown = "v" ∷ [];
}

abbrev args : List String
args = "-v" ∷ "5" ∷ "--ip-masq" ∷ "--iface=eth0" ∷ "--" ∷ "rest" ∷ []

parsed_run : ((parse flanneld args).1 ≡ ok tt) × ((parse flanneld args).0.remaining ≡ "rest" ∷ [])
unfolding parse parse_args arg_step lex_arg lex_body find_flag put_flag set_flag_value new_value
    parse_bool
parsed_run = (refl, refl)

parse-remaining_example : EndsWith args (parse flanneld args).0.remaining
parse-remaining_example = parse-remaining flanneld args parsed_run.0

parse_inline_example :
    parse flanneld ("--healthz-port=0x1F" ∷ [])
    ≡ set_and_parse flanneld "healthz-port" "0x1F" [] (set_flag_value port "0x1F")
unfolding find_flag
parse_inline_example = parse_inline flanneld "healthz-port" "0x1F" [] port (refl, refl) refl

parse_one_dash_example :
    parse flanneld ("-ip-masq" ∷ "x" ∷ []) ≡ parse flanneld ("--ip-masq" ∷ "x" ∷ [])
parse_one_dash_example = parse_one_dash flanneld (char_at "i" 0) "p-masq" ("x" ∷ []) refl refl

parse-get_slice_example :
    get_slice (parse flanneld (map (inline_arg "iface") ("eth0" ∷ "eth1" ∷ []))).0 "iface"
    ≡ some ("eth0" ∷ "eth1" ∷ [])
unfolding find_flag
parse-get_slice_example =
    parse-get_slice flanneld "iface" ("eth0" ∷ "eth1" ∷ []) iface [] (refl, refl) refl refl refl

-- A number past the range of an i64.
parse_int_digits_example : parse_int "-0x8000000000000001" ≡ err (int_range "-0x8000000000000001")
parse_int_digits_example =
    parse_int_digits minus_sign hex (char_at "8" 0) "000000000000001" 0x8000000000000001 refl tt

parse_int_inner_sign_example : parse_int "0x-1F" ≡ ok (negsuc 30)
unfolding parse_int split_sign split_radix i64_from_str_radix magnitude negated
parse_int_inner_sign_example = parse_int_inner_sign (char_at "1" 0) "F" (negsuc 30) refl

-- The variable of one flag is good, that of another is not.
abbrev environment : String → Option String
environment name =
    if str_eq name "FLANNELD_ip_masq"
    then some "true"
    else if str_eq name "FLANNELD_iface"
    then none
    else some "many"

set_flags_from_env_lem_example :
    set_flags_from_env environment (λ s. s) "FLANNELD" flanneld
    ≡ some (
      record flanneld {
        flags = map (from_env environment (λ s. s) "FLANNELD") (masq ∷ port ∷ iface ∷ []);
      },
      all_errors environment (λ s. s) "FLANNELD" (masq ∷ port ∷ iface ∷ []),
    )
set_flags_from_env_lem_example =
    set_flags_from_env_lem environment (λ s. s) "FLANNELD" flanneld (refl, (refl, (refl, tt)))

abbrev empty_set : FlagSet
empty_set = new_flag_set "flannel"

abbrev one_flag : FlagSet
one_flag = record empty_set { flags = iface ∷ [] }

one_flag-Reaches : Reaches one_flag
unfolding register find_flag new_flag_set
one_flag-Reaches = with_slice empty_set one_flag "iface" "" (fresh empty_set "flannel" refl) refl

Reaches-Readable_example :
    (items : List String) × (get_slice (parse one_flag ("--iface=a" ∷ [])).0 "iface" ≡ some items)
unfolding parse parse_args arg_step lex_arg lex_body find_flag put_flag set_flag_value new_value
Reaches-Readable_example =
    Reaches-Readable (parse one_flag ("--iface=a" ∷ [])).0 "iface"
      (record iface { value = slice_value ("a" ∷ []); set_by_cli = true })
      (parsed one_flag (parse one_flag ("--iface=a" ∷ [])).0 ("--iface=a" ∷ []) one_flag-Reaches
        refl)
      refl
