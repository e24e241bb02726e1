-- ===== src/Flags/Env.antt =====
-- FlagSet::set_flags_from_env of flags.rs. The variables of the environment and the upper case of a text are
-- parameters; the `None` is the panic of `expect` on a flag that is gone.
use Prim.Native.Char.{code}
use Prim.Native.String.{String}
use flannel_rust.Prelude.{true, Option, none, some, List, [], ◌∷◌, ◌++◌, map, ◌==◌, if◌then◌else◌}
use flannel_rust.Prelude.Result.{Result, ok, err}
use flannel_rust.Flags.{
  Reason, EnvError, Flag, FlagSet, set_flag_value, find_flag, put_flag, concat, is_nil,
}

-- `replace('-', "_")`
abbrev pub underscored : String → String
underscored String.[] = String.[]
underscored (String.◌∷◌ c s) =
    if code c == 45 then concat "_" (underscored s) else String.◌∷◌ c (underscored s)

abbrev pub or_empty : Option String → String
or_empty none = ""
or_empty (some s) = s

module _ (var : String → Option String) (to_uppercase : String → String) (prefix : String) where
  unfoldable pub env_key_of : String → String
  env_key_of name = concat prefix (concat "_" (to_uppercase (underscored name)))

  abbrev pub env_error : String → String → Reason → EnvError
  env_error name raw reason = record {
    flag = name;
    env_key = env_key_of name;
    value = raw;
    reason = reason;
  }

  abbrev pub env_set : List Flag → String → String → Result Reason Flag → List Flag × List EnvError
  env_set fs name raw (ok f) = (put_flag fs name (record f { set_by_env = true }), [])
  env_set fs name raw (err reason) = (fs, env_error name raw reason ∷ [])

  -- One name of the loop; an empty variable is skipped.
  abbrev pub env_flag :
      List Flag → String → String → Option Flag → Option (List Flag × List EnvError)
  env_flag fs name raw none = none
  env_flag fs name raw (some f) = some (env_set fs name raw (set_flag_value f raw))

  unfoldable pub env_step : List Flag → String → Option (List Flag × List EnvError)
  env_step fs name =
      let raw = or_empty (var (env_key_of name)) in
      if is_nil raw then some (fs, []) else env_flag fs name raw (find_flag fs name)

  abbrev pub more_errors :
      List EnvError → Option (List Flag × List EnvError) → Option (List Flag × List EnvError)
  more_errors es none = none
  more_errors es (some (fs, es')) = some (fs, es ++ es')

  abbrev pub env_next :
      Option (List Flag × List EnvError)
      → (List Flag → Option (List Flag × List EnvError))
      → Option (List Flag × List EnvError)
  env_next none go = none
  env_next (some (fs, es)) go = more_errors es (go fs)

  unfoldable pub env_loop : List Flag → List String → Option (List Flag × List EnvError)
  env_loop fs [] = some (fs, [])
  env_loop fs (name ∷ names) = env_next (env_step fs name) (λ fs'. env_loop fs' names)

  abbrev pub with_flags :
      FlagSet → Option (List Flag × List EnvError) → Option (FlagSet × List EnvError)
  with_flags set none = none
  with_flags set (some (fs, es)) = some (record set { flags = fs }, es)

  unfoldable pub set_flags_from_env : FlagSet → Option (FlagSet × List EnvError)
  set_flags_from_env set = with_flags set (env_loop set.flags (map (λ f. f.name) set.flags))
