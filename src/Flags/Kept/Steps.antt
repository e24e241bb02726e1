-- ===== src/Flags/Kept/Steps.antt =====
-- What the steps of a parse keep.
use Prim.Native.String.{String}
use text.Mathlib.Text.{◌==◌ as str_eq}
use flannel_rust.Prelude.{
  ◌≡◌, refl, Bool, true, false, ◌||◌, Option, none, some, List, [], ◌∷◌, any, Bool-cases, inl, inr,
  if◌then◌else◌,
}
use flannel_rust.Prelude.Result.{Result, ok, err}
use flannel_rust.Flags.{
  Reason, unknown_flag, Kind, bool_kind, int_kind, str_kind, slice_kind, Flag, set_flag_value,
  find_flag, put_flag,
}
use flannel_rust.Flags.Parse.{
  Lexeme, positional, terminator, malformed, named, Step, stop_here, stop_behind, helped, failed,
  taken, taken_next, set_step, value_step, kind_step, skip_step, starts_with_dash, named_step,
  lexeme_step, lex_arg, arg_step, Parsed, after_step, parse_args, bool_text,
}
use flannel_rust.Flags.Kept.{Kept, Kept-refl, Kept-trans, put_flag-Kept, set_flag_value-Follows}

abbrev pub KeptStep : List Flag → Step → Type 0
KeptStep fs (taken gs) = Kept fs gs
KeptStep fs (taken_next gs) = Kept fs gs
KeptStep fs stop_here = Unit
KeptStep fs stop_behind = Unit
KeptStep fs helped = Unit
KeptStep fs (failed e) = Unit

set_step-Kept :
    (fs : List Flag) (name raw : String) (f : Flag) (go : List Flag → Step) (r : Result Reason Flag)
    → find_flag fs name ≡ some f
    → set_flag_value f raw ≡ r
    → ((gs : List Flag) → Kept fs gs → KeptStep fs (go gs))
    → KeptStep fs (set_step fs name raw go r)
set_step-Kept fs name raw f go (err reason) found e h = tt
set_step-Kept fs name raw f go (ok g) found e h =
    h (put_flag fs name (record g { set_by_cli = true })) (
      put_flag-Kept fs name f (record g { set_by_cli = true }) found
        (set_flag_value-Follows f g raw e))

value_step-Kept :
    (fs : List Flag) (name : String) (f : Flag) (inline next : Option String)
    → find_flag fs name ≡ some f
    → KeptStep fs (value_step fs name f inline next)
value_step-Kept fs name f (some inline) next found =
    set_step-Kept fs name inline f (λ gs. taken gs) (set_flag_value f inline) found refl (λ gs k. k)
value_step-Kept fs name f none (some next) found =
    set_step-Kept fs name next f (λ gs. taken_next gs) (set_flag_value f next) found refl
      (λ gs k. k)
value_step-Kept fs name f none none found = tt

kind_step-Kept :
    (k : Kind) (fs : List Flag) (name : String) (f : Flag) (inline next : Option String)
    → find_flag fs name ≡ some f
    → KeptStep fs (kind_step k fs name f inline next)
kind_step-Kept bool_kind fs name f inline next found =
    set_step-Kept fs name (bool_text inline) f (λ gs. taken gs)
      (set_flag_value f (bool_text inline)) found refl (λ gs k. k)
kind_step-Kept int_kind fs name f inline next found = value_step-Kept fs name f inline next found
kind_step-Kept str_kind fs name f inline next found = value_step-Kept fs name f inline next found
kind_step-Kept slice_kind fs name f inline next found = value_step-Kept fs name f inline next found

skip_step-Kept :
    (fs : List Flag) (inline next : Option String) → KeptStep fs (skip_step fs inline next)
skip_step-Kept fs (some inline) next = Kept-refl fs
skip_step-Kept fs none none = Kept-refl fs
skip_step-Kept fs none (some next) = elim (Bool-cases (starts_with_dash next)) [
  | inl e ↦ rw e (Kept-refl fs)
  | inr n ↦ rw n (Kept-refl fs)
]

named_step-Kept :
    (tolerated : List String) (fs : List Flag) (name : String) (inline next : Option String)
    (o : Option Flag)
    → find_flag fs name ≡ o
    → KeptStep fs (named_step tolerated fs name inline next o)
named_step-Kept tolerated fs name inline next (some f) found =
    kind_step-Kept f.kind fs name f inline next found
named_step-Kept tolerated fs name inline next none found =
    gated (str_eq name "help" || str_eq name "h") (any (λ t. str_eq t name) tolerated)
  where
    gated :
        (a b : Bool)
        → KeptStep fs (
            if a
            then helped
            else if b
            then skip_step fs inline next
            else failed (unknown_flag name))
    gated true b = tt
    gated false true = skip_step-Kept fs inline next
    gated false false = tt

arg_step-Kept :
    (tolerated : List String) (fs : List Flag) (arg : String) (next : Option String)
    → KeptStep fs (arg_step tolerated fs arg next)
unfolding arg_step
arg_step-Kept tolerated fs arg next = by_lexeme (lex_arg arg)
  where
    by_lexeme : (l : Lexeme) → KeptStep fs (lexeme_step tolerated fs arg next l)
    by_lexeme positional = tt
    by_lexeme terminator = tt
    by_lexeme malformed = tt
    by_lexeme (named name inline) =
        named_step-Kept tolerated fs name inline next (find_flag fs name) refl

after_step-Kept :
    (fs : List Flag) (args behind : List String) (step : Step) (go skip : List Flag → Parsed)
    → KeptStep fs step
    → ((gs : List Flag) → Kept gs (go gs).parsed_flags)
    → ((gs : List Flag) → Kept gs (skip gs).parsed_flags)
    → Kept fs (after_step fs args behind step go skip).parsed_flags
after_step-Kept fs args behind stop_here go skip k g h = Kept-refl fs
after_step-Kept fs args behind stop_behind go skip k g h = Kept-refl fs
after_step-Kept fs args behind helped go skip k g h = Kept-refl fs
after_step-Kept fs args behind (failed e) go skip k g h = Kept-refl fs
after_step-Kept fs args behind (taken gs) go skip k g h =
    Kept-trans fs gs (go gs).parsed_flags k (g gs)
after_step-Kept fs args behind (taken_next gs) go skip k g h =
    Kept-trans fs gs (skip gs).parsed_flags k (h gs)

pub parse_args-Kept :
    (tolerated : List String) (fs : List Flag) (args : List String)
    → Kept fs (parse_args tolerated fs args).parsed_flags
unfolding parse_args
parse_args-Kept tolerated fs [] = Kept-refl fs
parse_args-Kept tolerated fs (arg ∷ []) =
    after_step-Kept fs (arg ∷ []) [] (arg_step tolerated fs arg none) _ _
      (arg_step-Kept tolerated fs arg none) (λ gs. parse_args-Kept tolerated gs [])
      (λ gs. parse_args-Kept tolerated gs [])
parse_args-Kept tolerated fs (arg ∷ next ∷ args) =
    after_step-Kept fs (arg ∷ next ∷ args) (next ∷ args) (arg_step tolerated fs arg (some next)) _ _
      (arg_step-Kept tolerated fs arg (some next))
      (λ gs. parse_args-Kept tolerated gs (next ∷ args)) (λ gs. parse_args-Kept tolerated gs args)
