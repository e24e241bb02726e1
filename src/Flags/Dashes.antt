-- ===== src/Flags/Dashes.antt =====
-- One dash is two.
use Prim.Native.Char.{Char, code}
use Prim.Native.String.{String}
use flannel_rust.Prelude.{
  ◌≡◌, refl, ◌∙◌, arith, Bool, false, ◌||◌, Option, none, some, List, [], ◌∷◌, ◌==◌, if◌then◌else◌,
}
use flannel_rust.Flags.{Flag, FlagSet, find_flag, concat}
use flannel_rust.Ip.Parse.{split_once}
use flannel_rust.Flags.Parse.{
  Lexeme, malformed, named, lex_body, lex_arg, Step, stop_here, stop_behind, helped, failed, taken,
  taken_next, named_step, arg_step, Parsed, after_step, parse_args, parse, of_split,
}
use flannel_rust.Flags.Rest.{Moves, named_step-Moves}

-- Both arguments name the same flag.
same_name :
    (tolerated : List String) (fs : List Flag) (one two name : String) (inline next : Option String)
    → lex_arg one ≡ named name inline
    → lex_arg two ≡ named name inline
    → (arg_step tolerated fs one next
        ≡ named_step tolerated fs name inline next (find_flag fs name))
      × (arg_step tolerated fs two next
          ≡ named_step tolerated fs name inline next (find_flag fs name))
unfolding arg_step
same_name tolerated fs one two name inline next h k = (rw h refl, rw k refl)

same_step :
    (fs : List Flag) (args more behind : List String) (s : Step) (go skip : List Flag → Parsed)
    → Moves s
    → after_step fs args behind s go skip ≡ after_step fs more behind s go skip
same_step fs args more behind stop_here go skip m = absurd m
same_step fs args more behind stop_behind go skip m = absurd m
same_step fs args more behind helped go skip m = refl
same_step fs args more behind (failed e) go skip m = refl
same_step fs args more behind (taken gs) go skip m = refl
same_step fs args more behind (taken_next gs) go skip m = refl

same_args :
    (tolerated : List String) (fs : List Flag) (one two name : String) (inline : Option String)
    (args : List String)
    → lex_arg one ≡ named name inline
    → lex_arg two ≡ named name inline
    → parse_args tolerated fs (one ∷ args) ≡ parse_args tolerated fs (two ∷ args)
unfolding parse_args
same_args tolerated fs one two name inline [] h k =
    let (first, second) = same_name tolerated fs one two name inline none h k in
    let moves = named_step-Moves tolerated fs name inline none (find_flag fs name) in
    rw (first, second) (same_step fs (one ∷ []) (two ∷ []) [] _ _ _ moves)
same_args tolerated fs one two name inline (next ∷ args) h k =
    let (first, second) = same_name tolerated fs one two name inline (some next) h k in
    let moves = named_step-Moves tolerated fs name inline (some next) (find_flag fs name) in
    rw (first, second)
      (same_step fs (one ∷ next ∷ args) (two ∷ next ∷ args) (next ∷ args) _ _ _ moves)

of_split-named :
    (body : String) (o : Option (String × String))
    → (name : String) × (inline : Option String) × (of_split body o ≡ named name inline)
of_split-named body none = (body, none, refl)
of_split-named body (some (name, inline)) = (name, some inline, refl)

otherwise : (a b : Bool) (x y : Lexeme) → a ≡ false → b ≡ false → (if a || b then x else y) ≡ y
otherwise a b x y h k = ground (arith, h, k)

named_body :
    (c : Char) (s : String)
    → (code c == 45) ≡ false
    → (code c == 61) ≡ false
    → (name : String) × (inline : Option String) × (lex_body (String.◌∷◌ c s) ≡ named name inline)
unfolding lex_body
named_body c s h k =
    let body = String.◌∷◌ c s in
    let (name, inline, e) = of_split-named body (split_once 0x3d body) in
    (
      name,
      inline,
      otherwise (code c == 45) (code c == 61) malformed (of_split body (split_once 0x3d body)) h k
          ∙ e,
    )

one_dash :
    (c : Char) (s : String)
    → (code c == 45) ≡ false
    → lex_arg (concat "-" (String.◌∷◌ c s)) ≡ lex_body (String.◌∷◌ c s)
unfolding lex_arg
one_dash c String.[] h = rw h refl
one_dash c (String.◌∷◌ d s) h = rw h refl

two_dashes :
    (c : Char) (s : String) → lex_arg (concat "--" (String.◌∷◌ c s)) ≡ lex_body (String.◌∷◌ c s)
unfolding lex_arg
two_dashes c s = refl

-- One dash is two: for every body that begins with neither a dash nor an equals sign, `-body` parses as `--body`,
-- with the same flags, remaining arguments and error.
pub parse_one_dash :
    (set : FlagSet) (c : Char) (s : String) (args : List String)
    → (code c == 45) ≡ false
    → (code c == 61) ≡ false
    → parse set (concat "-" (String.◌∷◌ c s) ∷ args)
      ≡ parse set (concat "--" (String.◌∷◌ c s) ∷ args)
unfolding parse
parse_one_dash set c s args h k =
    let (name, inline, e) = named_body c s h k in
    rw
      (same_args set.tolerated_unknown set.flags (concat "-" (String.◌∷◌ c s))
        (concat "--" (String.◌∷◌ c s)) name inline args (one_dash c s h ∙ e) (two_dashes c s ∙ e))
      refl
