-- ===== src/Flags/Kept.antt =====
-- What setting flags keeps: which flags there are, their kinds, and that each value is of its flag's kind.
pub mod Steps
use Prim.Native.String.{String}
use text.Mathlib.Text.{◌==◌ as str_eq}
use text.Mathlib.TextEquality.{eq_iff}
use text.Mathlib.TextPositions.{eq_refl}
use flannel_rust.Prelude.{
  ℕ, ◌≡◌, refl, sym, ap, subst, ◌∙◌, arith, Bool, true, false, not, ◌||◌, Option, none, some, List,
  [], ◌∷◌, map, any, Bool-cases, inl, inr, if◌then◌else◌,
}
use flannel_rust.Prelude.Result.{Result, ok, err, err≢ok, >>=-eq-ok}
use flannel_rust.Flags.{
  Reason, FlagError, unknown_flag, Kind, bool_kind, int_kind, str_kind, slice_kind, Value,
  bool_value, int_value, str_value, slice_value, Flag, FlagSet, parse_bool, parse_int, push_item,
  new_value, set_flag_value, find_flag, put_flag,
}
use flannel_rust.Flags.Parse.{
  Lexeme, positional, terminator, malformed, named, Step, stop_here, stop_behind, helped, failed,
  taken, taken_next, set_step, set_to, value_step, kind_step, skip_step, starts_with_dash,
  named_step, lexeme_step, lex_arg, arg_step, Parsed, after_step, parse_args, parse, bool_text,
}

abbrev pub kind_of : Value → Kind
kind_of (bool_value b) = bool_kind
kind_of (int_value z) = int_kind
kind_of (str_value s) = str_kind
kind_of (slice_value l) = slice_kind

abbrev pub IsTyped : Flag → Type 0
IsTyped f = kind_of f.value ≡ f.kind

new_value-kind :
    (k : Kind) (old new : Value) (raw : String)
    → kind_of old ≡ k
    → new_value k old raw ≡ ok new
    → kind_of new ≡ k
unfolding new_value
new_value-kind bool_kind old new raw h e =
    let (b, read, last) = >>=-eq-ok (parse_bool raw) (λ b. ok (bool_value b)) e in
    let same : new ≡ bool_value b = cc in rw same refl
new_value-kind int_kind old new raw h e =
    let (z, read, last) = >>=-eq-ok (parse_int raw) (λ z. ok (int_value z)) e in
    let same : new ≡ int_value z = cc in rw same refl
new_value-kind str_kind old new raw h e = let same : new ≡ str_value raw = cc in rw same refl
new_value-kind slice_kind (slice_value items) new raw h e =
    let same : new ≡ push_item (slice_value items) raw = cc in rw same refl
new_value-kind slice_kind (bool_value b) new raw h e = cc
new_value-kind slice_kind (int_value z) new raw h e = cc
new_value-kind slice_kind (str_value s) new raw h e = cc

-- One flag after the other: the same name and kind, and typed if that was.
abbrev pub Follows : Option Flag → Option Flag → Type 0
Follows none none = Unit
Follows none (some g) = ⊥
Follows (some f) none = ⊥
Follows (some f) (some g) =
    (g.name ≡ f.name)
    × (g.kind ≡ f.kind)
    × (g.default_val ≡ f.default_val)
    × (IsTyped f → IsTyped g)

pub Follows-refl : (o : Option Flag) → Follows o o
Follows-refl none = tt
Follows-refl (some f) = (refl, refl, refl, λ t. t)

pub Follows-trans : (o p q : Option Flag) → Follows o p → Follows p q → Follows o q
Follows-trans none none none h k = tt
Follows-trans none none (some q) h k = k
Follows-trans none (some p) q h k = absurd h
Follows-trans (some o) none q h k = absurd h
Follows-trans (some o) (some p) none h k = k
Follows-trans (some o) (some p) (some q) h k = (k.0 ∙ h.0, k.1 ∙ h.1, k.2 ∙ h.2, λ t. k.3 (h.3 t))

abbrev pub names_of : List Flag → List String
names_of fs = map (λ f. f.name) fs

-- The flags are the same ones in the same order, whatever their values.
abbrev pub Kept : List Flag → List Flag → Type 0
Kept fs gs =
    (names_of gs ≡ names_of fs)
    × ((name : String) → Follows (find_flag fs name) (find_flag gs name))

pub set_flag_value-Follows :
    (f g : Flag) (raw : String) → set_flag_value f raw ≡ ok g → Follows (some f) (some g)
unfolding set_flag_value
set_flag_value-Follows f g raw e =
    let (v, set, last) =
      >>=-eq-ok (new_value f.kind f.value raw) (λ v. ok (record f { value = v })) e in
    let same : g ≡ record f { value = v } = cc in
    rw same (refl, refl, refl, λ t. new_value-kind f.kind f.value v raw t set)

abbrev pub put_of : Flag → Option Flag → Option Flag
put_of g none = none
put_of g (some f) = some g

-- The flag that stands at a name's place after a replacement.
pub find_flag-put_flag :
    (fs : List Flag) (name other : String) (g : Flag)
    → g.name ≡ name
    → find_flag (put_flag fs name g) other
      ≡ (if str_eq name other then put_of g (find_flag fs name) else find_flag fs other)
unfolding find_flag put_flag
find_flag-put_flag [] name other g h = ground arith
find_flag-put_flag (f ∷ fs) name other g h = ground (
  arith,
  h,
  eq_iff f.name name,
  eq_iff f.name other,
  eq_iff name other,
  eq_iff g.name other,
  find_flag-put_flag fs name other g h,
)

pub Kept-refl : (fs : List Flag) → Kept fs fs
Kept-refl fs = (refl, λ name. Follows-refl (find_flag fs name))

pub Kept-trans : (fs gs hs : List Flag) → Kept fs gs → Kept gs hs → Kept fs hs
Kept-trans fs gs hs k l = (
  l.0 ∙ k.0,
  λ name.
      Follows-trans (find_flag fs name) (find_flag gs name) (find_flag hs name) (k.1 name)
        (l.1 name),
)

put_flag-Follows :
    (fs : List Flag) (name other : String) (f g : Flag)
    → find_flag fs name ≡ some f
    → f.name ≡ name
    → Follows (some f) (some g)
    → Follows (find_flag fs other) (find_flag (put_flag fs name g) other)
put_flag-Follows fs name other f g found same h = elim (Bool-cases (str_eq name other)) [
  | inl e ↦
      let same_name = (eq_iff name other).0 e in
      let found_other : find_flag fs other ≡ some f = sym (ap (find_flag fs) same_name) ∙ found in
      rw (find_flag-put_flag fs name other g (h.0 ∙ same), e, found, found_other) h
  | inr n ↦
      rw (find_flag-put_flag fs name other g (h.0 ∙ same), n) (Follows-refl (find_flag fs other))
]

names_of-put_flag :
    (fs : List Flag) (name : String) (g : Flag)
    → g.name ≡ name
    → names_of (put_flag fs name g) ≡ names_of fs
unfolding put_flag
names_of-put_flag [] name g h = refl
names_of-put_flag (f ∷ fs) name g h = elim (Bool-cases (str_eq f.name name)) [
  | inl e ↦ rw e (ap (λ (n : String). n ∷ names_of fs) (h ∙ sym ((eq_iff f.name name).0 e)))
  | inr n ↦ rw n (ap (λ (ns : List String). f.name ∷ ns) (names_of-put_flag fs name g h))
]

pub find_flag-name :
    (fs : List Flag) (name : String) (f : Flag) → find_flag fs name ≡ some f → f.name ≡ name
unfolding find_flag
find_flag-name [] name f h = cc
find_flag-name (g ∷ fs) name f h = ground (arith, eq_iff g.name name, find_flag-name fs name f)

pub put_flag-Kept :
    (fs : List Flag) (name : String) (f g : Flag)
    → find_flag fs name ≡ some f
    → Follows (some f) (some g)
    → Kept fs (put_flag fs name g)
put_flag-Kept fs name f g found h =
    let same = find_flag-name fs name f found in
    (
      names_of-put_flag fs name g (h.0 ∙ same),
      λ other. put_flag-Follows fs name other f g found same h,
    )
