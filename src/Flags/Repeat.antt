-- ===== src/Flags/Repeat.antt =====
-- A value in the next argument, a flag with no value, and a flag that is repeated.
use Prim.Native.String.{String}
use text.Mathlib.Text.{◌==◌ as str_eq}
use text.Mathlib.TextPositions.{eq_refl}
use flannel_rust.Prelude.{
  ◌≡◌, ◌≢◌, refl, sym, ap, ◌∙◌, true, Option, none, some, List, [], ◌∷◌, ◌++◌, map, if◌then◌else◌,
}
use flannel_rust.Prelude.Result.{Result, ok, ◌>>=◌}
use flannel_rust.Flags.{
  Reason, Kind, bool_kind, int_kind, str_kind, slice_kind, Value, slice_value, Flag, FlagSet,
  find_flag, put_flag, concat, new_value, set_flag_value, get_slice, items_of, read_flag,
}
use flannel_rust.Flags.Kept.{find_flag-put_flag, find_flag-name, put_of}
use flannel_rust.Flags.Command.{
  IsFlagName, inline_arg, lex_bare, head, parse_args-set, parse_args-set_next, arg_step-named,
  set_args-parse, set_and_parse, parse_inline,
}
use flannel_rust.Flags.Parse.{taken_next, kind_step, set_step, parse, parse_args}

kind_step-spaced :
    (k : Kind) (fs : List Flag) (name : String) (f : Flag) (v : String)
    → k ≢ bool_kind
    → kind_step k fs name f none (some v)
      ≡ set_step fs name v (λ gs. taken_next gs) (set_flag_value f v)
kind_step-spaced bool_kind fs name f v h = absurd (h refl)
kind_step-spaced int_kind fs name f v h = refl
kind_step-spaced str_kind fs name f v h = refl
kind_step-spaced slice_kind fs name f v h = refl

-- `--name v` is `--name=v` for every registered flag that is not a Boolean, whatever v is: an argument
-- that begins with a dash is taken as the value too.
pub parse_spaced :
    (set : FlagSet) (name v : String) (args : List String) (f : Flag)
    → IsFlagName name
    → find_flag set.flags name ≡ some f
    → f.kind ≢ bool_kind
    → parse set (concat "--" name ∷ v ∷ args) ≡ parse set (inline_arg name v ∷ args)
unfolding parse
parse_spaced set name v args f is_name found h =
    set_args-parse set name v args (set_flag_value f v) _ (
      parse_args-set_next set.tolerated_unknown set.flags (concat "--" name) name v args
        (set_flag_value f v)
        (arg_step-named set.tolerated_unknown set.flags (concat "--" name) name none (some v) f
            (lex_bare name is_name) found
          ∙ kind_step-spaced f.kind set.flags name f v h))
    ∙ sym (parse_inline set name v args f is_name found)

-- A Boolean flag with no value is one that is set to true: it leaves the next argument alone.
pub parse_bare :
    (set : FlagSet) (name : String) (args : List String) (f : Flag)
    → IsFlagName name
    → find_flag set.flags name ≡ some f
    → f.kind ≡ bool_kind
    → parse set (concat "--" name ∷ args) ≡ parse set (inline_arg name "true" ∷ args)
unfolding parse
parse_bare set name args f is_name found is_bool =
    set_args-parse set name "true" args (set_flag_value f "true") _ (
      parse_args-set set.tolerated_unknown set.flags (concat "--" name) name "true" args
        (set_flag_value f "true")
        (arg_step-named set.tolerated_unknown set.flags (concat "--" name) name none (head args) f
            (lex_bare name is_name) found
          ∙ ap (λ k. kind_step k set.flags name f none (head args)) is_bool))
    ∙ sym (parse_inline set name "true" args f is_name found)

pub set_slice :
    (f : Flag) (items : List String) (v : String)
    → f.kind ≡ slice_kind
    → f.value ≡ slice_value items
    → set_flag_value f v ≡ ok (record f { value = slice_value (items ++ (v ∷ [])) })
unfolding set_flag_value new_value
set_slice f items v h e =
    ap (λ (r : Result Reason Value). r >>= λ x. ok (record f { value = x }))
      (ap (λ k. new_value k f.value v) h ∙ ap (λ x. new_value slice_kind x v) e)

append-nil : (xs : List String) → xs ++ [] ≡ xs
append-nil [] = refl
append-nil (x ∷ xs) = ap (λ (t : List String). x ∷ t) (append-nil xs)

append_assoc : (xs ys zs : List String) → (xs ++ ys) ++ zs ≡ xs ++ (ys ++ zs)
append_assoc [] ys zs = refl
append_assoc (x ∷ xs) ys zs = ap (λ (t : List String). x ∷ t) (append_assoc xs ys zs)

put_found :
    (name : String) (g f : Flag) (o : Option Flag)
    → o ≡ some f
    → (if str_eq name name then put_of g o else o) ≡ some g
put_found name g f o found = rw (eq_refl name, found) refl

-- A command line of nothing but --name=v, repeated, for one slice flag: the flag takes all the values, in
-- their order, behind the ones that it had.
pub parse-get_slice :
    (set : FlagSet) (name : String) (vs : List String) (f : Flag) (items : List String)
    → IsFlagName name
    → find_flag set.flags name ≡ some f
    → f.kind ≡ slice_kind
    → f.value ≡ slice_value items
    → get_slice (parse set (map (inline_arg name) vs)).0 name ≡ some (items ++ vs)
unfolding get_slice parse parse_args
parse-get_slice set name [] f items is_name found k e =
    ap (read_flag items_of) found ∙ ap items_of e ∙ ap (λ l. some l) (sym (append-nil items))
parse-get_slice set name (v ∷ vs) f items is_name found k e =
    let g = record f { value = slice_value (items ++ (v ∷ [])); set_by_cli = true } in
    let found_next =
      find_flag-put_flag set.flags name name g (find_flag-name set.flags name f found)
      ∙ put_found name g f (find_flag set.flags name) found in
    ap (λ p. get_slice p.0 name)
      (parse_inline set name v (map (inline_arg name) vs) f is_name found
        ∙ ap (set_and_parse set name v (map (inline_arg name) vs)) (set_slice f items v k e))
    ∙ parse-get_slice (record set { flags = put_flag set.flags name g }) name vs g
        (items ++ (v ∷ [])) is_name found_next k refl
    ∙ ap (λ l. some l) (append_assoc items (v ∷ []) vs)
