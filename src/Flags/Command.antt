-- ===== src/Flags/Command.antt =====
-- How a command line is read: one dash or two, what is left over, and repeated flags.
use Prim.Native.Char.{code}
use Prim.Native.String.{String}
use flannel_rust.Prelude.{
  ◌≡◌, refl, ◌∙◌, arith, Bool, true, false, ◌||◌, Option, none, some, List, [], ◌∷◌, ◌==◌,
}
use flannel_rust.Prelude.Result.{Result, ok, err}
use flannel_rust.Ip.Parse.{split_once, contains_char}
use flannel_rust.Flags.{
  Reason, FlagError, bad_value, Kind, bool_kind, int_kind, str_kind, slice_kind, Flag, FlagSet,
  find_flag, put_flag, concat, set_flag_value,
}
use flannel_rust.Flags.Parse.{
  named, lex_body, lex_arg, failed, taken, taken_next, kind_step, or_remaining, arg_step, Parsed,
  parse_args, parse, set_step,
}

-- A name that is written behind dashes: not empty, with no dash in front, and with no equals sign.
abbrev pub IsFlagName : String → Type 0
IsFlagName String.[] = ⊥
IsFlagName (String.◌∷◌ c s) =
    ((code c == 45) ≡ false) × (contains_char 0x3d (String.◌∷◌ c s) ≡ false)

abbrev pub inline_arg : String → String → String
inline_arg name value = concat "--" (concat name (concat "=" value))

split_or : (a b : Bool) → (a || b) ≡ false → (a ≡ false) × (b ≡ false)
split_or true b h = cc
split_or false b h = (refl, h)

split_once-none : (s : String) → contains_char 0x3d s ≡ false → split_once 0x3d s ≡ none
split_once-none String.[] h = refl
split_once-none (String.◌∷◌ c s) h =
    let (here, later) = split_or (code c == 0x3d) (contains_char 0x3d s) h in
    rw (here, split_once-none s later) refl

split_once-inline :
    (s v : String)
    → contains_char 0x3d s ≡ false
    → split_once 0x3d (concat s (concat "=" v)) ≡ some (s, v)
split_once-inline String.[] v h = refl
split_once-inline (String.◌∷◌ c s) v h = ground (arith, split_once-inline s v)

lex_inline : (name v : String) → IsFlagName name → lex_arg (inline_arg name v) ≡ named name (some v)
unfolding lex_arg lex_body
lex_inline String.[] v h = absurd h
lex_inline (String.◌∷◌ c s) v h =
    let (here, later) = split_or (code c == 0x3d) (contains_char 0x3d s) h.1 in
    rw (h.0, here, split_once-inline s v later) refl

pub lex_bare : (name : String) → IsFlagName name → lex_arg (concat "--" name) ≡ named name none
unfolding lex_arg lex_body
lex_bare String.[] h = absurd h
lex_bare (String.◌∷◌ c s) h =
    let (here, later) = split_or (code c == 0x3d) (contains_char 0x3d s) h.1 in
    rw (h.0, here, split_once-none s later) refl

abbrev pub head : List String → Option String
head [] = none
head (a ∷ args) = some a

-- The loop after an argument that is read for what it is.
module _ (tolerated : List String) (fs : List Flag) where
  parse_args-taken :
      (arg : String) (args : List String) (gs : List Flag)
      → arg_step tolerated fs arg (head args) ≡ taken gs
      → parse_args tolerated fs (arg ∷ args) ≡ parse_args tolerated gs args
  unfolding parse_args
  parse_args-taken arg [] gs h = rw h refl
  parse_args-taken arg (next ∷ args) gs h = rw h refl

  parse_args-taken_next :
      (arg next : String) (args : List String) (gs : List Flag)
      → arg_step tolerated fs arg (some next) ≡ taken_next gs
      → parse_args tolerated fs (arg ∷ next ∷ args) ≡ parse_args tolerated gs args
  unfolding parse_args
  parse_args-taken_next arg next args gs h = rw h refl

  parse_args-failed :
      (arg : String) (args : List String) (e : FlagError)
      → arg_step tolerated fs arg (head args) ≡ failed e
      → parse_args tolerated fs (arg ∷ args)
        ≡ record { parsed_flags = fs; rest = none; outcome = err e }
  unfolding parse_args
  parse_args-failed arg [] e h = rw h refl
  parse_args-failed arg (next ∷ args) e h = rw h refl

  -- A flag is set to a text, and the loop goes on, or the text is refused, and it ends.
  abbrev pub set_args : String → String → List String → Result Reason Flag → Parsed
  set_args name raw args (err reason) = record {
    parsed_flags = fs;
    rest = none;
    outcome = err (bad_value name raw reason);
  }
  set_args name raw args (ok g) =
      parse_args tolerated (put_flag fs name (record g { set_by_cli = true })) args

  pub parse_args-set :
      (arg name raw : String) (args : List String) (r : Result Reason Flag)
      → arg_step tolerated fs arg (head args) ≡ set_step fs name raw (λ gs. taken gs) r
      → parse_args tolerated fs (arg ∷ args) ≡ set_args name raw args r
  parse_args-set arg name raw args (err reason) h =
      parse_args-failed arg args (bad_value name raw reason) h
  parse_args-set arg name raw args (ok g) h =
      parse_args-taken arg args (put_flag fs name (record g { set_by_cli = true })) h

  pub parse_args-set_next :
      (arg name raw : String) (args : List String) (r : Result Reason Flag)
      → arg_step tolerated fs arg (some raw) ≡ set_step fs name raw (λ gs. taken_next gs) r
      → parse_args tolerated fs (arg ∷ raw ∷ args) ≡ set_args name raw args r
  parse_args-set_next arg name raw args (err reason) h =
      parse_args-failed arg (raw ∷ args) (bad_value name raw reason) h
  parse_args-set_next arg name raw args (ok g) h =
      parse_args-taken_next arg raw args (put_flag fs name (record g { set_by_cli = true })) h

  pub arg_step-named :
      (arg name : String) (inline next : Option String) (f : Flag)
      → lex_arg arg ≡ named name inline
      → find_flag fs name ≡ some f
      → arg_step tolerated fs arg next ≡ kind_step f.kind fs name f inline next
  unfolding arg_step
  arg_step-named arg name inline next f h found = rw (h, found) refl

-- A flag set with a flag set to a text, and the rest of the command line, or the error.
abbrev pub set_and_parse :
    FlagSet
    → String
    → String
    → List String
    → Result Reason Flag
    → FlagSet × Result FlagError (Unit {0})
set_and_parse set name raw args (err reason) = (set, err (bad_value name raw reason))
set_and_parse set name raw args (ok g) =
    parse (record set { flags = put_flag set.flags name (record g { set_by_cli = true }) }) args

pub set_args-parse :
    (set : FlagSet) (name raw : String) (args : List String) (r : Result Reason Flag) (p : Parsed)
    → p ≡ set_args set.tolerated_unknown set.flags name raw args r
    → ◌≡◌ {A = FlagSet × Result FlagError (Unit {0})}
        (
          record set { flags = p.parsed_flags; remaining = or_remaining set.remaining p.rest },
          p.outcome,
        )
        (set_and_parse set name raw args r)
unfolding parse
set_args-parse set name raw args (err reason) p h = rw h refl
set_args-parse set name raw args (ok g) p h = rw h refl

kind_step-inline :
    (k : Kind) (fs : List Flag) (name : String) (f : Flag) (v : String) (next : Option String)
    → kind_step k fs name f (some v) next ≡ set_step fs name v (λ gs. taken gs) (set_flag_value f v)
kind_step-inline bool_kind fs name f v next = refl
kind_step-inline int_kind fs name f v next = refl
kind_step-inline str_kind fs name f v next = refl
kind_step-inline slice_kind fs name f v next = refl

-- `--name=v` sets a registered flag of any kind to v, by the rules of its kind, and the rest of the command line is
-- parsed with the flag so set; where v is refused, the parse ends with that error and the flags as they were.
pub parse_inline :
    (set : FlagSet) (name v : String) (args : List String) (f : Flag)
    → IsFlagName name
    → find_flag set.flags name ≡ some f
    → parse set (inline_arg name v ∷ args) ≡ set_and_parse set name v args (set_flag_value f v)
unfolding parse
parse_inline set name v args f is_name found =
    set_args-parse set name v args (set_flag_value f v) _ (
      parse_args-set set.tolerated_unknown set.flags (inline_arg name v) name v args
        (set_flag_value f v)
        (arg_step-named set.tolerated_unknown set.flags (inline_arg name v) name (some v)
            (head args) f (lex_inline name v is_name) found
          ∙ kind_step-inline f.kind set.flags name f v (head args)))
