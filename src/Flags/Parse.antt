-- ===== src/Flags/Parse.antt =====
-- FlagSet::parse of flags.rs: each argument is read for what it is, and the loop goes on after it, or after it
-- and the next one.
use Prim.Native.Char.{code}
use Prim.Native.String.{String}
use text.Mathlib.Text.{◌==◌ as str_eq}
use flannel_rust.Prelude.{
  Bool, true, false, not, ◌||◌, Option, none, some, List, [], ◌∷◌, ◌==◌, any, if◌then◌else◌,
}
use flannel_rust.Prelude.Result.{Result, ok, err}
use flannel_rust.Ip.Parse.{split_once}
use flannel_rust.Flags.{
  Reason, FlagError, unknown_flag, bad_value, missing_value, bad_syntax, help_requested, Kind,
  bool_kind, int_kind, str_kind, slice_kind, Flag, FlagSet, set_flag_value, find_flag, put_flag,
}

-- What an argument is: no flag, the end of the flags, bad syntax, or a flag's name with what follows an
-- equals sign.
pub data Lexeme : Type 0 where
  positional terminator malformed : Lexeme
  named : String → Option String → Lexeme

abbrev pub of_split : String → Option (String × String) → Lexeme
of_split body none = named body none
of_split body (some (name, inline)) = named name (some inline)

-- What stands behind the dashes.
unfoldable pub lex_body : String → Lexeme
lex_body String.[] = malformed
lex_body (String.◌∷◌ c s) =
    if code c == 45 || code c == 61
    then malformed
    else of_split (String.◌∷◌ c s) (split_once 0x3d (String.◌∷◌ c s))

unfoldable pub lex_arg : String → Lexeme
lex_arg String.[] = positional
lex_arg (String.◌∷◌ c String.[]) = positional
lex_arg (String.◌∷◌ c (String.◌∷◌ d String.[])) =
    if not (code c == 45)
    then positional
    else if code d == 45
    then terminator
    else lex_body (String.◌∷◌ d String.[])
lex_arg (String.◌∷◌ c (String.◌∷◌ d (String.◌∷◌ e s))) =
    if not (code c == 45)
    then positional
    else if code d == 45
    then lex_body (String.◌∷◌ e s)
    else lex_body (String.◌∷◌ d (String.◌∷◌ e s))

-- What the loop does at an argument: it stops before it or behind it, fails, stops for help, or goes on
-- behind the argument, or behind the next one.
pub data Step : Type 0 where
  stop_here stop_behind helped : Step
  failed : FlagError → Step
  taken taken_next : List Flag → Step

abbrev pub bool_text : Option String → String
bool_text none = "true"
bool_text (some inline) = inline

abbrev pub set_step : List Flag → String → String → (List Flag → Step) → Result Reason Flag → Step
set_step fs name raw go (err reason) = failed (bad_value name raw reason)
set_step fs name raw go (ok f) = go (put_flag fs name (record f { set_by_cli = true }))

abbrev pub set_to : List Flag → String → Flag → String → (List Flag → Step) → Step
set_to fs name f raw go = set_step fs name raw go (set_flag_value f raw)

abbrev pub value_step : List Flag → String → Flag → Option String → Option String → Step
value_step fs name f (some inline) next = set_to fs name f inline taken
value_step fs name f none (some next) = set_to fs name f next taken_next
value_step fs name f none none = failed (missing_value name)

abbrev pub kind_step : Kind → List Flag → String → Flag → Option String → Option String → Step
kind_step bool_kind fs name f inline next = set_to fs name f (bool_text inline) taken
kind_step int_kind fs name f inline next = value_step fs name f inline next
kind_step str_kind fs name f inline next = value_step fs name f inline next
kind_step slice_kind fs name f inline next = value_step fs name f inline next

abbrev pub starts_with_dash : String → Bool
starts_with_dash String.[] = false
starts_with_dash (String.◌∷◌ c s) = code c == 45

-- A tolerated flag takes the next argument with it, if it has no value and that argument is no flag.
abbrev pub skip_step : List Flag → Option String → Option String → Step
skip_step fs (some inline) next = taken fs
skip_step fs none none = taken fs
skip_step fs none (some next) = if not (starts_with_dash next) then taken_next fs else taken fs

abbrev pub named_step :
    List String → List Flag → String → Option String → Option String → Option Flag → Step
named_step tolerated fs name inline next (some f) = kind_step f.kind fs name f inline next
named_step tolerated fs name inline next none =
    if str_eq name "help" || str_eq name "h"
    then helped
    else if any (λ t. str_eq t name) tolerated
    then skip_step fs inline next
    else failed (unknown_flag name)

abbrev pub lexeme_step : List String → List Flag → String → Option String → Lexeme → Step
lexeme_step tolerated fs arg next positional = stop_here
lexeme_step tolerated fs arg next terminator = stop_behind
lexeme_step tolerated fs arg next malformed = failed (bad_syntax arg)
lexeme_step tolerated fs arg next (named name inline) =
    named_step tolerated fs name inline next (find_flag fs name)

unfoldable pub arg_step : List String → List Flag → String → Option String → Step
arg_step tolerated fs arg next = lexeme_step tolerated fs arg next (lex_arg arg)

-- How the loop ends: the flags as they are then, and the rest of the arguments or the error. Help has both.
pub record Parsed : Type 0 where
  pub parsed_flags : List Flag
  pub rest : Option (List String)
  pub outcome : Result FlagError (Unit {0})

abbrev pub ended : List Flag → List String → Parsed
ended fs rest = record { parsed_flags = fs; rest = some rest; outcome = ok tt }

abbrev pub after_step :
    List Flag
    → List String
    → List String
    → Step
    → (List Flag → Parsed)
    → (List Flag → Parsed)
    → Parsed
after_step fs args behind stop_here go skip = ended fs args
after_step fs args behind stop_behind go skip = ended fs behind
after_step fs args behind helped go skip = record {
  parsed_flags = fs;
  rest = some behind;
  outcome = err help_requested;
}
after_step fs args behind (failed e) go skip = record {
  parsed_flags = fs;
  rest = none;
  outcome = err e;
}
after_step fs args behind (taken fs') go skip = go fs'
after_step fs args behind (taken_next fs') go skip = skip fs'

unfoldable pub parse_args : List String → List Flag → List String → Parsed
parse_args tolerated fs [] = ended fs []
parse_args tolerated fs (arg ∷ []) =
    after_step fs (arg ∷ []) [] (arg_step tolerated fs arg none)
      (λ fs'. parse_args tolerated fs' []) (λ fs'. parse_args tolerated fs' [])
parse_args tolerated fs (arg ∷ next ∷ args) =
    after_step fs (arg ∷ next ∷ args) (next ∷ args) (arg_step tolerated fs arg (some next))
      (λ fs'. parse_args tolerated fs' (next ∷ args)) (λ fs'. parse_args tolerated fs' args)

abbrev pub or_remaining : List String → Option (List String) → List String
or_remaining old none = old
or_remaining old (some rest) = rest

unfoldable pub parse : FlagSet → List String → FlagSet × Result FlagError (Unit {0})
parse set args =
    let p = parse_args set.tolerated_unknown set.flags args in
    (
      record set { flags = p.parsed_flags; remaining = or_remaining set.remaining p.rest },
      p.outcome,
    )
