-- ===== src/Flags/Rest.antt =====
-- What a parse leaves over.
use Prim.Native.String.{String}
use text.Mathlib.Text.{◌==◌ as str_eq}
use flannel_rust.Prelude.{
  ◌≡◌, ◌⊎◌, refl, ap, Bool, true, false, ◌||◌, Option, none, some, List, [], ◌∷◌, ◌++◌, any,
  Bool-cases, inl, inr, if◌then◌else◌,
}
use flannel_rust.Prelude.Result.{Result, ok, err, err≢ok}
use flannel_rust.Flags.{
  Reason, FlagError, unknown_flag, Kind, bool_kind, int_kind, str_kind, slice_kind, Flag, FlagSet,
  find_flag, set_flag_value,
}
use flannel_rust.Flags.Parse.{
  Lexeme, positional, terminator, malformed, named, lex_arg, Step, stop_here, stop_behind, helped,
  failed, taken, taken_next, set_step, value_step, kind_step, skip_step, starts_with_dash,
  named_step, lexeme_step, bool_text, arg_step, Parsed, after_step, parse_args, parse,
}

-- A step that does not stop the loop without an error or help.
abbrev pub Moves : Step → Type 0
Moves stop_here = ⊥
Moves stop_behind = ⊥
Moves helped = Unit
Moves (failed e) = Unit
Moves (taken fs) = Unit
Moves (taken_next fs) = Unit

set_step-Moves :
    (fs : List Flag) (name raw : String) (r : Result Reason Flag)
    → (Moves (set_step fs name raw (λ gs. taken gs) r))
      × (Moves (set_step fs name raw (λ gs. taken_next gs) r))
set_step-Moves fs name raw (err reason) = (tt, tt)
set_step-Moves fs name raw (ok f) = (tt, tt)

value_step-Moves :
    (fs : List Flag) (name : String) (f : Flag) (inline next : Option String)
    → Moves (value_step fs name f inline next)
value_step-Moves fs name f (some v) next = (set_step-Moves fs name v (set_flag_value f v)).0
value_step-Moves fs name f none (some v) = (set_step-Moves fs name v (set_flag_value f v)).1
value_step-Moves fs name f none none = tt

kind_step-Moves :
    (k : Kind) (fs : List Flag) (name : String) (f : Flag) (inline next : Option String)
    → Moves (kind_step k fs name f inline next)
kind_step-Moves bool_kind fs name f inline next =
    (set_step-Moves fs name (bool_text inline) (set_flag_value f (bool_text inline))).0
kind_step-Moves int_kind fs name f inline next = value_step-Moves fs name f inline next
kind_step-Moves str_kind fs name f inline next = value_step-Moves fs name f inline next
kind_step-Moves slice_kind fs name f inline next = value_step-Moves fs name f inline next

skip_step-Moves : (fs : List Flag) (inline next : Option String) → Moves (skip_step fs inline next)
skip_step-Moves fs (some v) next = tt
skip_step-Moves fs none none = tt
skip_step-Moves fs none (some next) = elim (Bool-cases (starts_with_dash next)) [
  | inl e ↦ rw e tt
  | inr n ↦ rw n tt
]

unknown-Moves :
    (a b : Bool) (fs : List Flag) (name : String) (inline next : Option String)
    → Moves
        (if a then helped else if b then skip_step fs inline next else failed (unknown_flag name))
unknown-Moves true b fs name inline next = tt
unknown-Moves false true fs name inline next = skip_step-Moves fs inline next
unknown-Moves false false fs name inline next = tt

pub named_step-Moves :
    (tolerated : List String) (fs : List Flag) (name : String) (inline next : Option String)
    (o : Option Flag)
    → Moves (named_step tolerated fs name inline next o)
named_step-Moves tolerated fs name inline next (some f) =
    kind_step-Moves f.kind fs name f inline next
named_step-Moves tolerated fs name inline next none =
    unknown-Moves (str_eq name "help" || str_eq name "h") (any (λ t. str_eq t name) tolerated) fs
      name inline next

-- Where the loop may stop: at the end, at an argument that is no flag, or at `--`, which it consumes.
abbrev pub Stops : List String → List String → Type 0
Stops tail rest =
    ((tail ≡ []) × (rest ≡ []))
    ⊎ ((arg : String) × (more : List String) × (tail ≡ arg ∷ more)
        × (rest ≡ tail)
        × (lex_arg arg ≡ positional))
    ⊎ ((arg : String) × (tail ≡ arg ∷ rest) × (lex_arg arg ≡ terminator))

abbrev pub EndsWith : List String → List String → Type 0
EndsWith args rest =
    (before : List String) × (tail : List String) × (args ≡ before ++ tail) × Stops tail rest

EndsWith-cons :
    (arg : String) (args rest : List String) → EndsWith args rest → EndsWith (arg ∷ args) rest
EndsWith-cons arg args rest (before, tail, e, stops) =
    (arg ∷ before, tail, ap (λ (t : List String). arg ∷ t) e, stops)

-- What a step says of the argument.
abbrev Explains : String → Step → Type 0
Explains arg stop_here = lex_arg arg ≡ positional
Explains arg stop_behind = lex_arg arg ≡ terminator
Explains arg helped = Unit
Explains arg (failed e) = Unit
Explains arg (taken fs) = Unit
Explains arg (taken_next fs) = Unit

Moves-Explains : (arg : String) (s : Step) → Moves s → Explains arg s
Moves-Explains arg stop_here m = absurd m
Moves-Explains arg stop_behind m = absurd m
Moves-Explains arg helped m = tt
Moves-Explains arg (failed e) m = tt
Moves-Explains arg (taken fs) m = tt
Moves-Explains arg (taken_next fs) m = tt

lexeme_step-Explains :
    (tolerated : List String) (fs : List Flag) (arg : String) (next : Option String) (l : Lexeme)
    → lex_arg arg ≡ l
    → Explains arg (lexeme_step tolerated fs arg next l)
lexeme_step-Explains tolerated fs arg next positional e = e
lexeme_step-Explains tolerated fs arg next terminator e = e
lexeme_step-Explains tolerated fs arg next malformed e = tt
lexeme_step-Explains tolerated fs arg next (named name inline) e =
    Moves-Explains arg (named_step tolerated fs name inline next (find_flag fs name))
      (named_step-Moves tolerated fs name inline next (find_flag fs name))

arg_step-Explains :
    (tolerated : List String) (fs : List Flag) (arg : String) (next : Option String)
    → Explains arg (arg_step tolerated fs arg next)
unfolding arg_step
arg_step-Explains tolerated fs arg next =
    lexeme_step-Explains tolerated fs arg next (lex_arg arg) refl

-- A loop that ends without an error ends where it may stop.
abbrev Ends : List String → Parsed → Type 0
Ends args p = (p.outcome ≡ ok tt) → (rest : List String) × (p.rest ≡ some rest) × EndsWith args rest

refused : {A : Type 0} (e : FlagError) → ◌≡◌ {A = Result FlagError (Unit {0})} (err e) (ok tt) → A
refused e h = absurd (err≢ok e tt h)

after_step-Ends :
    (fs : List Flag) (arg : String) (behind : List String) (step : Step)
    (go skip : List Flag → Parsed)
    → Explains arg step
    → ((gs : List Flag) → Ends behind (go gs))
    → ((gs : List Flag) → Ends (arg ∷ behind) (skip gs))
    → Ends (arg ∷ behind) (after_step fs (arg ∷ behind) behind step go skip)
after_step-Ends fs arg behind stop_here go skip x g k h =
    (arg ∷ behind, refl, ([], arg ∷ behind, refl, inr (inl (arg, behind, refl, refl, x))))
after_step-Ends fs arg behind stop_behind go skip x g k h =
    (behind, refl, ([], arg ∷ behind, refl, inr (inr (arg, refl, x))))
after_step-Ends fs arg behind helped go skip x g k h = refused _ h
after_step-Ends fs arg behind (failed e) go skip x g k h = refused e h
after_step-Ends fs arg behind (taken gs) go skip x g k h =
    let (rest, e, ends) = g gs h in (rest, e, EndsWith-cons arg behind rest ends)
after_step-Ends fs arg behind (taken_next gs) go skip x g k h = k gs h

Ends-skip :
    (arg next : String) (args : List String) (p : Parsed) → Ends args p → Ends (arg ∷ next ∷ args) p
Ends-skip arg next args p x h =
    let (rest, e, ends) = x h in
    (rest, e, EndsWith-cons arg (next ∷ args) rest (EndsWith-cons next args rest ends))

parse_args-Ends :
    (tolerated : List String) (fs : List Flag) (args : List String)
    → Ends args (parse_args tolerated fs args)
unfolding parse_args
parse_args-Ends tolerated fs [] h = ([], refl, ([], [], refl, inl (refl, refl)))
parse_args-Ends tolerated fs (arg ∷ []) h =
    after_step-Ends fs arg [] (arg_step tolerated fs arg none) _ _
      (arg_step-Explains tolerated fs arg none) (λ gs. parse_args-Ends tolerated gs [])
      (λ gs k.
        let (rest, e, ends) = parse_args-Ends tolerated gs [] k in
        (rest, e, EndsWith-cons arg [] rest ends))
      h
parse_args-Ends tolerated fs (arg ∷ next ∷ args) h =
    after_step-Ends fs arg (next ∷ args) (arg_step tolerated fs arg (some next)) _ _
      (arg_step-Explains tolerated fs arg (some next))
      (λ gs. parse_args-Ends tolerated gs (next ∷ args))
      (λ gs.
        Ends-skip arg next args (parse_args tolerated gs args) (parse_args-Ends tolerated gs args))
      h

-- After a parse with no error, the remaining arguments are an end of the command line: nothing, or all from
-- an argument that is no flag, or all behind a `--`.
pub parse-remaining :
    (set : FlagSet) (args : List String)
    → (parse set args).1 ≡ ok tt
    → EndsWith args (parse set args).0.remaining
unfolding parse
parse-remaining set args h =
    let (rest, e, ends) = parse_args-Ends set.tolerated_unknown set.flags args h in rw e ends
