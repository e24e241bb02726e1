-- ===== src/Flags.antt =====
-- crates/flannel-core/src/flags.rs: the flag sets and the values of flags. A `None` of a registration or a getter
-- is its panic; the reason of an error stands for its text.
pub mod Parse
pub mod Env
pub mod Kept
pub mod Applied
pub mod Reach
pub mod Command
pub mod Repeat
pub mod Rest
pub mod Dashes
pub mod Numbers
pub mod Integers
use Prim.Native.Char.{code}
use Prim.Native.String.{String}
use text.Mathlib.Text.{◌==◌ as str_eq}
use flannel_rust.Prelude.{
  ℕ, Bool, true, false, not, ◌||◌, ◌&&◌, Option, none, some, List, [], ◌∷◌, ◌++◌, ◌==◌, any,
  if◌then◌else◌,
}
use flannel_rust.Prelude.Int.{ℤ, pos, negsuc}
use flannel_rust.Prelude.Radix.{
  IntErrorKind, no_digits, invalid_digit, pos_overflow, neg_overflow, i64_from_str_radix,
}
use flannel_rust.Prelude.Result.{Result, ok, err, ◌>>=◌}

-- The texts of `strconv`, each with the text that was parsed.
pub data Reason : Type 0 where
  bool_syntax int_syntax int_range : String → Reason

pub data FlagError : Type 0 where
  unknown_flag : String → FlagError
  bad_value : String → String → Reason → FlagError
  missing_value : String → FlagError
  bad_syntax : String → FlagError
  help_requested : FlagError

pub record EnvError : Type 0 where
  pub flag : String
  pub env_key : String
  pub value : String
  pub reason : Reason

pub data Kind : Type 0 where
  bool_kind int_kind str_kind slice_kind : Kind

pub data Value : Type 0 where
  bool_value : Bool → Value
  int_value : ℤ → Value
  str_value : String → Value
  slice_value : List String → Value

pub record Flag : Type 0 where
  pub name : String
  pub kind : Kind
  pub help : String
  pub value : Value
  pub default_val : Value
  pub set_by_cli : Bool
  pub set_by_env : Bool

pub record FlagSet : Type 0 where
  pub set_name : String
  pub flags : List Flag
  pub remaining : List String
  pub tolerated_unknown : List String

abbrev pub is_one_of : List String → String → Bool
is_one_of words s = any (λ w. str_eq w s) words

abbrev pub true_words : List String
true_words = "1" ∷ "t" ∷ "T" ∷ "TRUE" ∷ "true" ∷ "True" ∷ []

abbrev pub false_words : List String
false_words = "0" ∷ "f" ∷ "F" ∷ "FALSE" ∷ "false" ∷ "False" ∷ []

unfoldable pub parse_bool : String → Result Reason Bool
parse_bool s =
    if is_one_of true_words s
    then ok true
    else if is_one_of false_words s
    then ok false
    else err (bool_syntax s)

-- The sign, as the text that `format!` puts in front of the digits, and what follows it.
unfoldable pub split_sign : String → String × String
split_sign String.[] = (String.[], String.[])
split_sign (String.◌∷◌ c s) =
    if code c == 43
    then ("+", s)
    else if code c == 45
    then ("-", s)
    else (String.[], String.◌∷◌ c s)

-- The digits of a body, and their radix: by a prefix, whose letter may be a capital, or octal after a zero.
unfoldable pub split_radix : String → String × ℕ
split_radix String.[] = (String.[], 10)
split_radix (String.◌∷◌ c String.[]) = (String.◌∷◌ c String.[], 10)
split_radix (String.◌∷◌ c (String.◌∷◌ d s)) =
    if code c == 48
    then if code d == 120 || code d == 88
      then (s, 16)
      else if code d == 111 || code d == 79
      then (s, 8)
      else if code d == 98 || code d == 66
      then (s, 2)
      else (String.◌∷◌ d s, 8)
    else (String.◌∷◌ c (String.◌∷◌ d s), 10)

abbrev pub int_error : String → IntErrorKind → Reason
int_error s pos_overflow = int_range s
int_error s neg_overflow = int_range s
int_error s no_digits = int_syntax s
int_error s invalid_digit = int_syntax s

abbrev pub or_int_error : String → Result IntErrorKind ℤ → Result Reason ℤ
or_int_error s (err e) = err (int_error s e)
or_int_error s (ok z) = ok z

abbrev pub is_nil : String → Bool
is_nil String.[] = true
is_nil (String.◌∷◌ c s) = false

-- `push_str`
abbrev pub concat : String → String → String
concat String.[] t = t
concat (String.◌∷◌ c s) t = String.◌∷◌ c (concat s t)

abbrev pub int_of_digits : String → String → String × ℕ → Result Reason ℤ
int_of_digits s sign (digits, radix) =
    if is_nil digits
    then err (int_syntax s)
    else or_int_error s (i64_from_str_radix radix (concat sign digits))

abbrev pub int_of_body : String → String × String → Result Reason ℤ
int_of_body s (sign, body) =
    if is_nil body then err (int_syntax s) else int_of_digits s sign (split_radix body)

unfoldable pub parse_int : String → Result Reason ℤ
parse_int s = int_of_body s (split_sign s)

abbrev pub push_item : Value → String → Value
push_item (slice_value items) raw = slice_value (items ++ (raw ∷ []))
push_item (bool_value b) raw = bool_value b
push_item (int_value z) raw = int_value z
push_item (str_value s) raw = str_value s

-- The value of a flag of a kind once it is set to a text.
unfoldable pub new_value : Kind → Value → String → Result Reason Value
new_value bool_kind old raw = do b ← parse_bool raw; ok (bool_value b)
new_value int_kind old raw = do z ← parse_int raw; ok (int_value z)
new_value str_kind old raw = ok (str_value raw)
new_value slice_kind old raw = ok (push_item old raw)

-- A flag that cannot take the text stays as it is.
unfoldable pub set_flag_value : Flag → String → Result Reason Flag
set_flag_value f raw = do v ← new_value f.kind f.value raw; ok (record f { value = v })

unfoldable pub new_flag_set : String → FlagSet
new_flag_set name = record { set_name = name; flags = []; remaining = []; tolerated_unknown = [] }

-- `find`, with the flag that stands at the position.
unfoldable pub find_flag : List Flag → String → Option Flag
find_flag [] name = none
find_flag (f ∷ fs) name = if str_eq f.name name then some f else find_flag fs name

-- `self.flags[idx]`, for the position that `find` gives, is replaced.
unfoldable pub put_flag : List Flag → String → Flag → List Flag
put_flag [] name g = []
put_flag (f ∷ fs) name g = if str_eq f.name name then g ∷ fs else f ∷ put_flag fs name g

abbrev pub unset_flag : String → Kind → Value → String → Flag
unset_flag name kind default help = record {
  name = name;
  kind = kind;
  help = help;
  value = default;
  default_val = default;
  set_by_cli = false;
  set_by_env = false;
}

unfoldable pub register : FlagSet → String → Kind → Value → String → Option FlagSet
register set name kind default help = elim (find_flag set.flags name) [
  | some f ↦ none
  | none ↦ some (record set { flags = set.flags ++ (unset_flag name kind default help ∷ []) })
]

abbrev pub register_bool : FlagSet → String → Bool → String → Option FlagSet
register_bool set name default help = register set name bool_kind (bool_value default) help

abbrev pub register_int : FlagSet → String → ℤ → String → Option FlagSet
register_int set name default help = register set name int_kind (int_value default) help

abbrev pub register_string : FlagSet → String → String → String → Option FlagSet
register_string set name default help = register set name str_kind (str_value default) help

abbrev pub register_slice : FlagSet → String → String → Option FlagSet
register_slice set name help = register set name slice_kind (slice_value []) help

abbrev pub with_tolerated_unknown : FlagSet → List String → FlagSet
with_tolerated_unknown set names = record set { tolerated_unknown = names }

abbrev pub bool_of : Value → Option Bool
bool_of (bool_value b) = some b
bool_of (int_value z) = none
bool_of (str_value s) = none
bool_of (slice_value l) = none

abbrev pub int_of : Value → Option ℤ
int_of (bool_value b) = none
int_of (int_value z) = some z
int_of (str_value s) = none
int_of (slice_value l) = none

abbrev pub str_of : Value → Option String
str_of (bool_value b) = none
str_of (int_value z) = none
str_of (str_value s) = some s
str_of (slice_value l) = none

abbrev pub items_of : Value → Option (List String)
items_of (bool_value b) = none
items_of (int_value z) = none
items_of (str_value s) = none
items_of (slice_value l) = some l

abbrev pub read_flag : {A : Type 0} → (Value → Option A) → Option Flag → Option A
read_flag read none = none
read_flag read (some f) = read f.value

unfoldable pub get_bool : FlagSet → String → Option Bool
get_bool set name = read_flag bool_of (find_flag set.flags name)

unfoldable pub get_int : FlagSet → String → Option ℤ
get_int set name = read_flag int_of (find_flag set.flags name)

unfoldable pub get_string : FlagSet → String → Option String
get_string set name = read_flag str_of (find_flag set.flags name)

unfoldable pub get_slice : FlagSet → String → Option (List String)
get_slice set name = read_flag items_of (find_flag set.flags name)

unfoldable pub is_set : FlagSet → String → Bool
is_set set name = elim (find_flag set.flags name) [
  | none ↦ false
  | some f ↦ f.set_by_cli || f.set_by_env
]

unfoldable pub was_set_by_env : FlagSet → String → Bool
was_set_by_env set name = elim (find_flag set.flags name) [ none ↦ false | some f ↦ f.set_by_env ]
