-- ===== src/Flags/Applied.antt =====
-- The environment sets each flag by its own variable.
use Prim.Native.String.{String}
use text.Mathlib.Text.{◌==◌ as str_eq}
use text.Mathlib.TextPositions.{eq_refl}
use flannel_rust.Prelude.{
  ◌≡◌, refl, ap, arith, true, false, Option, none, some, List, [], ◌∷◌, ◌++◌, map, any, Bool-cases,
  inl, inr, if◌then◌else◌,
}
use flannel_rust.Prelude.Dict.{str_eq_sym}
use flannel_rust.Prelude.Result.{Result, ok, err}
use flannel_rust.Flags.{
  Reason, EnvError, Flag, slice_kind, slice_value, FlagSet, set_flag_value, find_flag, put_flag,
  is_nil,
}
use flannel_rust.Flags.Env.{
  or_empty, env_key_of, env_error, env_set, env_step, env_loop, with_flags, set_flags_from_env,
}
use flannel_rust.Flags.Repeat.{set_slice}
use flannel_rust.Flags.Kept.{Follows, Follows-refl, names_of, set_flag_value-Follows}

abbrev pub IsDistinct : List String → Type 0
IsDistinct [] = Unit
IsDistinct (n ∷ ns) = (any (λ m. str_eq m n) ns ≡ false) × IsDistinct ns

-- No flag of the first list has the name of one of the second.
abbrev Apart : List Flag → List Flag → Type 0
Apart fs [] = Unit
Apart fs (g ∷ gs) = (find_flag fs g.name ≡ none) × Apart fs gs

abbrev first_of : Option Flag → Option Flag → Option Flag
first_of none p = p
first_of (some f) p = some f

find_flag-append :
    (fs gs : List Flag) (n : String)
    → find_flag (fs ++ gs) n ≡ first_of (find_flag fs n) (find_flag gs n)
unfolding find_flag
find_flag-append [] gs n = refl
find_flag-append (f ∷ fs) gs n = ground (arith, find_flag-append fs gs n)

put_flag-append :
    (fs gs : List Flag) (n : String) (g : Flag)
    → find_flag fs n ≡ none
    → put_flag (fs ++ gs) n g ≡ fs ++ put_flag gs n g
unfolding find_flag put_flag
put_flag-append [] gs n g h = refl
put_flag-append (f ∷ fs) gs n g h = ground (arith, put_flag-append fs gs n g)

append-snoc : (fs gs : List Flag) (f : Flag) → (fs ++ (f ∷ [])) ++ gs ≡ fs ++ (f ∷ gs)
append-snoc [] gs f = refl
append-snoc (x ∷ fs) gs f = ap (λ (t : List Flag). x ∷ t) (append-snoc fs gs f)

Apart-snoc :
    (fs gs : List Flag) (f : Flag)
    → Apart fs gs
    → any (λ m. str_eq m f.name) (names_of gs) ≡ false
    → Apart (fs ++ (f ∷ [])) gs
unfolding find_flag
Apart-snoc fs [] f h k = tt
Apart-snoc fs (g ∷ gs) f h k = (
  ground (arith, find_flag-append fs (f ∷ []) g.name, h.0, str_eq_sym f.name g.name),
  Apart-snoc fs gs f h.1 (ground arith),
)

find_flag-here :
    (fs gs : List Flag) (f : Flag)
    → find_flag fs f.name ≡ none
    → find_flag (fs ++ (f ∷ gs)) f.name ≡ some f
unfolding find_flag
find_flag-here fs gs f h = rw (find_flag-append fs (f ∷ gs) f.name, h, eq_refl f.name) refl

put_flag-here :
    (fs gs : List Flag) (f g : Flag)
    → find_flag fs f.name ≡ none
    → put_flag (fs ++ (f ∷ gs)) f.name g ≡ fs ++ (g ∷ gs)
unfolding put_flag
put_flag-here fs gs f g h = rw (put_flag-append fs (f ∷ gs) f.name g h, eq_refl f.name) refl

-- A flag that its variable has set, or that keeps its value.
abbrev pub set_or_kept : Flag → Result Reason Flag → Flag
set_or_kept f (err reason) = f
set_or_kept f (ok g) = record g { set_by_env = true }

module _ (var : String → Option String) (to_uppercase : String → String) (prefix : String) where
  abbrev variable : Flag → String
  variable f = or_empty (var (env_key_of var to_uppercase prefix f.name))

  -- A flag after its variable is applied; an empty variable is none.
  unfoldable pub from_env : Flag → Flag
  from_env f = if is_nil (variable f) then f else set_or_kept f (set_flag_value f (variable f))

  abbrev error_of : Flag → Result Reason Flag → List EnvError
  error_of f (err reason) = env_error var to_uppercase prefix f.name (variable f) reason ∷ []
  error_of f (ok g) = []

  unfoldable pub env_errors : Flag → List EnvError
  env_errors f = if is_nil (variable f) then [] else error_of f (set_flag_value f (variable f))

  abbrev pub all_errors : List Flag → List EnvError
  all_errors [] = []
  all_errors (f ∷ fs) = env_errors f ++ all_errors fs

  pub from_env-Follows : (f : Flag) → Follows (some f) (some (from_env f))
  unfolding from_env
  from_env-Follows f = elim (Bool-cases (is_nil (variable f))) [
    | inl e ↦ rw e (Follows-refl (some f))
    | inr n ↦ rw n (kept (set_flag_value f (variable f)) refl)
  ]
    where
      kept :
          (r : Result Reason Flag)
          → set_flag_value f (variable f) ≡ r
          → Follows (some f) (some (set_or_kept f r))
      kept (err reason) e = Follows-refl (some f)
      kept (ok g) e = set_flag_value-Follows f g (variable f) e

  from_env-name : (f : Flag) → (from_env f).name ≡ f.name
  from_env-name f = (from_env-Follows f).0

  env_step-here :
      (fs gs : List Flag) (f : Flag)
      → find_flag fs f.name ≡ none
      → env_step var to_uppercase prefix (fs ++ (f ∷ gs)) f.name
        ≡ some (fs ++ (from_env f ∷ gs), env_errors f)
  unfolding env_step from_env env_errors
  env_step-here fs gs f h = elim (Bool-cases (is_nil (variable f))) [
    | inl e ↦ rw e refl
    | inr n ↦ rw (n, find_flag-here fs gs f h) (set (set_flag_value f (variable f)))
  ]
    where
      set :
          (r : Result Reason Flag)
          → some (env_set var to_uppercase prefix (fs ++ (f ∷ gs)) f.name (variable f) r)
            ≡ some (fs ++ (set_or_kept f r ∷ gs), error_of f r)
      set (err reason) = refl
      set (ok g) =
          ap (λ (l : List Flag). some (l, error_of f (ok g)))
            (put_flag-here fs gs f (record g { set_by_env = true }) h)

  env_loop-here :
      (fs gs : List Flag)
      → Apart fs gs
      → IsDistinct (names_of gs)
      → env_loop var to_uppercase prefix (fs ++ gs) (names_of gs)
        ≡ some (fs ++ map from_env gs, all_errors gs)
  unfolding env_loop
  env_loop-here fs [] h d = refl
  env_loop-here fs (g ∷ gs) h d =
      let later =
        env_loop-here (fs ++ (from_env g ∷ [])) gs
          (Apart-snoc fs gs (from_env g) h.1 (rw (from_env-name g) d.0)) d.1 in
      rw
        (
          env_step-here fs gs g h.0,
          ← append-snoc fs gs (from_env g),
          later,
          append-snoc fs (map from_env gs) (from_env g),
        )
        refl

  Apart-nil : (gs : List Flag) → Apart [] gs
  unfolding find_flag
  Apart-nil [] = tt
  Apart-nil (g ∷ gs) = (refl, Apart-nil gs)

  -- A slice flag gets its variable behind the items that it had.
  from_env-slice :
      (f : Flag) (items : List String)
      → is_nil (variable f) ≡ false
      → f.kind ≡ slice_kind
      → f.value ≡ slice_value items
      → (from_env f).value ≡ slice_value (items ++ (variable f ∷ []))
  unfolding from_env
  from_env-slice f items n k e = rw (n, set_slice f items (variable f) k e) refl

  -- Where the names of the flags are distinct, set_flags_from_env does not panic: each flag whose own variable
  -- is not empty and has a text of the flag's kind is set to it by set_flag_value, which puts it in the
  -- place of the flag's value, whether or not the command line gave that, or behind the items of a slice
  -- flag; it is left as it is otherwise; the errors are those of the texts that are refused, in the order
  -- of the flags.
  pub set_flags_from_env_lem :
      (set : FlagSet)
      → IsDistinct (names_of set.flags)
      → set_flags_from_env var to_uppercase prefix set
        ≡ some (record set { flags = map from_env set.flags }, all_errors set.flags)
  unfolding set_flags_from_env
  set_flags_from_env_lem set d =
      ap (with_flags var to_uppercase prefix set)
        (env_loop-here [] set.flags (Apart-nil set.flags) d)
