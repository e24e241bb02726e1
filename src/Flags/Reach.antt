-- ===== src/Flags/Reach.antt =====
-- The flag sets that registrations, parses and the environment lead to.
use Prim.Native.String.{String}
use text.Mathlib.Text.{◌==◌ as str_eq}
use flannel_rust.Prelude.{
  ◌≡◌, ◌⊎◌, Option-cases, refl, ap, subst, arith, Bool, false, Option, none, some, List, [], ◌∷◌,
  ◌++◌, map, any, Bool-cases, inl, inr,
}
use flannel_rust.Prelude.Dict.{str_eq_sym}
use flannel_rust.Prelude.Int.{ℤ}
use flannel_rust.Flags.{
  Kind, bool_kind, int_kind, str_kind, slice_kind, Value, bool_value, int_value, str_value,
  slice_value, EnvError, Flag, FlagSet, find_flag, new_flag_set, unset_flag, register,
  register_bool, register_int, register_string, register_slice, with_tolerated_unknown, get_bool,
  get_int, get_string, get_slice, bool_of, int_of, str_of, items_of,
}
use flannel_rust.Flags.Applied.{IsDistinct, from_env, from_env-Follows, set_flags_from_env_lem}
use flannel_rust.Flags.Env.{set_flags_from_env}
use flannel_rust.Flags.Kept.{kind_of, IsTyped, names_of, Follows, Kept}
use flannel_rust.Flags.Kept.Steps.{parse_args-Kept}
use flannel_rust.Flags.Parse.{parse}

-- A flag set that the operations of FlagSet lead to. The environment of each application is its own.
pub data Reaches : FlagSet → Type 0 where
  fresh : (s : FlagSet) (name : String) → s ≡ new_flag_set name → Reaches s
  with_bool :
      (s t : FlagSet) (name : String) (default : Bool) (help : String)
      → Reaches s
      → register_bool s name default help ≡ some t
      → Reaches t
  with_int :
      (s t : FlagSet) (name : String) (default : ℤ) (help : String)
      → Reaches s
      → register_int s name default help ≡ some t
      → Reaches t
  with_string :
      (s t : FlagSet) (name : String) (default : String) (help : String)
      → Reaches s
      → register_string s name default help ≡ some t
      → Reaches t
  with_slice :
      (s t : FlagSet) (name : String) (help : String)
      → Reaches s
      → register_slice s name help ≡ some t
      → Reaches t
  tolerating :
      (s t : FlagSet) (names : List String)
      → Reaches s
      → t ≡ with_tolerated_unknown s names
      → Reaches t
  parsed : (s t : FlagSet) (args : List String) → Reaches s → t ≡ (parse s args).0 → Reaches t
  with_env :
      (var : String → Option String) (to_uppercase : String → String) (prefix : String)
      (s t : FlagSet) (errors : List EnvError)
      → Reaches s
      → set_flags_from_env var to_uppercase prefix s ≡ some (t, errors)
      → Reaches t

abbrev pub AllTyped : List Flag → Type 0
AllTyped fs = (name : String) (f : Flag) → find_flag fs name ≡ some f → IsTyped f

abbrev IsGood : List Flag → Type 0
IsGood fs = IsDistinct (names_of fs) × AllTyped fs

find_flag-missing :
    (fs : List Flag) (n : String)
    → find_flag fs n ≡ none
    → any (λ m. str_eq m n) (names_of fs) ≡ false
unfolding find_flag
find_flag-missing [] n h = refl
find_flag-missing (f ∷ fs) n h = ground (arith, find_flag-missing fs n)

none≢some : {A : Type 0} (a : A) → ◌≡◌ {A = Option A} none (some a) → ⊥
none≢some a h = cc

any_last :
    (fs : List Flag) (f : Flag) (m : String)
    → any (λ x. str_eq x m) (names_of fs) ≡ false
    → str_eq f.name m ≡ false
    → any (λ x. str_eq x m) (names_of (fs ++ (f ∷ []))) ≡ false
any_last [] f m h k = ground (arith, k)
any_last (x ∷ fs) f m h k = ground (arith, any_last fs f m (ground arith) k)

IsDistinct-snoc :
    (fs : List Flag) (f : Flag)
    → IsDistinct (names_of fs)
    → any (λ m. str_eq m f.name) (names_of fs) ≡ false
    → IsDistinct (names_of (fs ++ (f ∷ [])))
IsDistinct-snoc [] f d h = (refl, tt)
IsDistinct-snoc (g ∷ fs) f d h = (
  any_last fs f g.name d.0 (ground (arith, str_eq_sym g.name f.name)),
  IsDistinct-snoc fs f d.1 (ground arith),
)

find_flag-snoc :
    (fs : List Flag) (f g : Flag) (n : String)
    → find_flag (fs ++ (f ∷ [])) n ≡ some g
    → (find_flag fs n ≡ some g) ⊎ (f ≡ g)
unfolding find_flag
find_flag-snoc [] f g n h = elim (Bool-cases (str_eq f.name n)) [
  | inl e ↦ let same : some f ≡ some g = rw e at h in inr (cc)
  | inr m ↦ let same : none ≡ some g = rw m at h in inr (cc)
]
find_flag-snoc (x ∷ fs) f g n h = elim (Bool-cases (str_eq x.name n)) [
  | inl e ↦ rw e (inl (rw e at h))
  | inr m ↦ rw m (find_flag-snoc fs f g n (rw m at h))
]

added :
    (fs : List Flag) (f : Flag)
    → find_flag fs f.name ≡ none
    → IsTyped f
    → IsGood fs
    → IsGood (fs ++ (f ∷ []))
added fs f missing typed good = (
  IsDistinct-snoc fs f good.0 (find_flag-missing fs f.name missing),
  λ n g found. elim (find_flag-snoc fs f g n found) [
    | inl e ↦ good.1 n g e
    | inr e ↦ subst IsTyped e typed
  ],
)

register-IsGood :
    (s t : FlagSet) (name : String) (kind : Kind) (default : Value) (help : String)
    → kind_of default ≡ kind
    → register s name kind default help ≡ some t
    → IsGood s.flags
    → IsGood t.flags
unfolding register
register-IsGood s t name kind default help k h good = elim (Option-cases (find_flag s.flags name)) [
  | inl missing ↦
      let same : some (record s { flags = s.flags ++ (unset_flag name kind default help ∷ []) })
          ≡ some t =
        rw (missing, register) at h in
      let same_flags : t.flags ≡ s.flags ++ (unset_flag name kind default help ∷ []) = cc in
      rw same_flags (added s.flags (unset_flag name kind default help) missing k good)
  | inr (f, found) ↦
      let same : none ≡ some t = rw (found, register) at h in absurd (none≢some t same)
]

Kept-IsGood : (fs gs : List Flag) → Kept fs gs → IsGood fs → IsGood gs
Kept-IsGood fs gs k good = (
  rw k.0 good.0,
  λ n g found.
      typed_after (find_flag fs n) g (subst (Follows (find_flag fs n)) found (k.1 n)) (good.1 n),
)
  where
    typed_after :
        (o : Option Flag) (g : Flag)
        → Follows o (some g)
        → ((f : Flag) → o ≡ some f → IsTyped f)
        → IsTyped g
    typed_after none g h t = absurd h
    typed_after (some f) g h t = h.3 (t f refl)

module _ (var : String → Option String) (to_uppercase : String → String) (prefix : String) where
  from_env-Kept : (fs : List Flag) → Kept fs (map (from_env var to_uppercase prefix) fs)
  unfolding find_flag
  from_env-Kept [] = (refl, λ n. tt)
  from_env-Kept (f ∷ fs) =
      let here = from_env-Follows var to_uppercase prefix f in
      let (names, later) = from_env-Kept fs in
      (
        cc,
        λ n.
            simp here.0
              (elim (Bool-cases (str_eq f.name n)) [ inl e ↦ rw e here | inr m ↦ rw m (later n) ]),
      )

  set_flags_from_env-IsGood :
      (s t : FlagSet) (errors : List EnvError)
      → set_flags_from_env var to_uppercase prefix s ≡ some (t, errors)
      → IsGood s.flags
      → IsGood t.flags
  set_flags_from_env-IsGood s t errors h good =
      let same = set_flags_from_env_lem var to_uppercase prefix s good.0 in
      let flags : t.flags ≡ map (from_env var to_uppercase prefix) s.flags = cc in
      rw flags (
        Kept-IsGood s.flags (map (from_env var to_uppercase prefix) s.flags) (from_env-Kept s.flags)
          good)

parse-IsGood : (s : FlagSet) (args : List String) → IsGood s.flags → IsGood (parse s args).0.flags
unfolding parse
parse-IsGood s args =
    Kept-IsGood s.flags (parse s args).0.flags (parse_args-Kept s.tolerated_unknown s.flags args)

Reaches-IsGood : (s : FlagSet) → Reaches s → IsGood s.flags
unfolding new_flag_set find_flag
Reaches-IsGood s (fresh _ name e) = rw e (tt, λ n f h. cc)
Reaches-IsGood t (with_bool s _ name default help r e) =
    register-IsGood s t name bool_kind (bool_value default) help refl e (Reaches-IsGood s r)
Reaches-IsGood t (with_int s _ name default help r e) =
    register-IsGood s t name int_kind (int_value default) help refl e (Reaches-IsGood s r)
Reaches-IsGood t (with_string s _ name default help r e) =
    register-IsGood s t name str_kind (str_value default) help refl e (Reaches-IsGood s r)
Reaches-IsGood t (with_slice s _ name help r e) =
    register-IsGood s t name slice_kind (slice_value []) help refl e (Reaches-IsGood s r)
Reaches-IsGood t (tolerating s _ names r e) = rw e (Reaches-IsGood s r)
Reaches-IsGood t (parsed s _ args r e) = rw e (parse-IsGood s args (Reaches-IsGood s r))
Reaches-IsGood t (with_env var to_uppercase prefix s _ errors r e) =
    set_flags_from_env-IsGood var to_uppercase prefix s t errors e (Reaches-IsGood s r)

-- The getter of a kind.
abbrev pub Readable : Kind → FlagSet → String → Type 0
Readable bool_kind s name = (b : Bool) × (get_bool s name ≡ some b)
Readable int_kind s name = (z : ℤ) × (get_int s name ≡ some z)
Readable str_kind s name = (text : String) × (get_string s name ≡ some text)
Readable slice_kind s name = (items : List String) × (get_slice s name ≡ some items)

read_by_value :
    (s : FlagSet) (name : String) (f : Flag) (v : Value)
    → find_flag s.flags name ≡ some f
    → f.value ≡ v
    → Readable (kind_of v) s name
unfolding get_bool get_int get_string get_slice
read_by_value s name f (bool_value b) found e = (b, rw found (ap bool_of e))
read_by_value s name f (int_value z) found e = (z, rw found (ap int_of e))
read_by_value s name f (str_value text) found e = (text, rw found (ap str_of e))
read_by_value s name f (slice_value items) found e = (items, rw found (ap items_of e))

-- In a flag set that registrations, parses, tolerated names and environments have led to, whatever their
-- arguments: the getter of a registered flag's kind does not panic.
pub Reaches-Readable :
    (s : FlagSet) (name : String) (f : Flag)
    → Reaches s
    → find_flag s.flags name ≡ some f
    → Readable f.kind s name
Reaches-Readable s name f r found =
    subst (λ k. Readable k s name) ((Reaches-IsGood s r).1 name f found)
      (read_by_value s name f f.value found refl)

-- In such a flag set the names of the flags are distinct, and set_flags_from_env does not panic.
pub Reaches-set_flags_from_env :
    (s : FlagSet) (var : String → Option String) (to_uppercase : String → String) (prefix : String)
    → Reaches s
    → (IsDistinct (names_of s.flags))
      × ((t : FlagSet) × (errors : List EnvError) × (set_flags_from_env var to_uppercase prefix s
            ≡ some (t, errors)))
Reaches-set_flags_from_env s var to_uppercase prefix r =
    let distinct = (Reaches-IsGood s r).0 in
    (distinct, (_, _, set_flags_from_env_lem var to_uppercase prefix s distinct))
