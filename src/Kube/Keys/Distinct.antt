-- ===== src/Kube/Keys/Distinct.antt =====
-- The keys of the annotations are ten different texts.
use Prim.Native.String.{String}
use text.Mathlib.Text.{◌==◌ as str_eq}
use text.Mathlib.TextEquality.{eq_iff}
use flannel_rust.Prelude.{
  ◌≡◌, refl, ap, subst, ◌∙◌, map, arith, Bool, true, false, not, ◌&&◌, any, List, [], ◌∷◌, All,
  if◌then◌else◌, ltb,
}
use flannel_rust.Prelude.Result.{ok, err}
use flannel_rust.Kube.{Annotations}
use flannel_rust.Kube.Keys.{
  many_slashes, not_a_prefix, count_char, append, normalized, keys_of, new_annotations,
}

append_cancel : (p s t : String) → append p s ≡ append p t → s ≡ t
append_cancel String.[] s t h = h
append_cancel (String.◌∷◌ c p) s t h = append_cancel p s t cc

pub append_eq : (p s t : String) → str_eq (append p s) (append p t) ≡ str_eq s t
append_eq p s t =
    ground (arith, eq_iff s t, eq_iff (append p s) (append p t), append_cancel p s t, ap (append p))

-- No two texts of a list are equal.
abbrev pub Distinct : List String → Type 0
Distinct [] = Unit
Distinct (s ∷ ss) = All (λ t. str_eq s t ≡ false) ss × Distinct ss

-- The keys: those that are written, the last written first, and then those that are read.
abbrev pub keys : Annotations → List String
keys a =
    a.subnet_kube_managed ∷ a.backend_public_ipv6 ∷ a.backend_v6_data ∷ a.backend_public_ip
    ∷ a.backend_data ∷ a.backend_type ∷ a.backend_public_ip_overwrite
    ∷ a.backend_public_ipv6_overwrite ∷ a.backend_node_public_ip ∷ a.backend_node_public_ipv6 ∷ []

abbrev distinct : List String → Bool
distinct [] = true
distinct (s ∷ ss) = not (any (str_eq s) ss) && distinct ss

any-All :
    (s : String) (ss : List String) → any (str_eq s) ss ≡ false → All (λ t. str_eq s t ≡ false) ss
any-All s [] h = tt
any-All s (t ∷ ss) h = (ground arith, any-All s ss (ground arith))

distinct-Distinct : (ss : List String) → distinct ss ≡ true → Distinct ss
distinct-Distinct [] h = tt
distinct-Distinct (s ∷ ss) h = (any-All s ss (ground arith), distinct-Distinct ss (ground arith))

All-append_eq :
    (p s : String) (ss : List String)
    → All (λ t. str_eq s t ≡ false) ss
    → All (λ t. str_eq (append p s) t ≡ false) (map (append p) ss)
All-append_eq p s [] h = tt
All-append_eq p s (t ∷ ss) h = (append_eq p s t ∙ h.0, All-append_eq p s ss h.1)

Distinct-append : (p : String) (ss : List String) → Distinct ss → Distinct (map (append p) ss)
Distinct-append p [] h = tt
Distinct-append p (s ∷ ss) h = (All-append_eq p s ss h.0, Distinct-append p ss h.1)

abbrev suffixes : List String
suffixes =
    "kube-subnet-manager" ∷ "public-ipv6" ∷ "backend-v6-data" ∷ "public-ip" ∷ "backend-data"
    ∷ "backend-type" ∷ "public-ip-overwrite" ∷ "public-ipv6-overwrite" ∷ "node-public-ip"
    ∷ "node-public-ipv6" ∷ []

pub keys_of-Distinct : (p : String) → Distinct (keys (keys_of p))
keys_of-Distinct p = Distinct-append p suffixes (distinct-Distinct suffixes refl)

decided :
    (many fits : Bool) (k a : Annotations)
    → (if many then err many_slashes else if fits then ok k else err not_a_prefix) ≡ ok a
    → k ≡ a
decided true fits k a h = cc
decided false true k a h = cc
decided false false k a h = cc

-- Annotation keys that new_annotations gives, for any prefix, are ten different texts.
pub new_annotations-Distinct :
    (matches : String → Bool) (prefix : String) (a : Annotations)
    → new_annotations matches prefix ≡ ok a
    → Distinct (keys a)
unfolding new_annotations
new_annotations-Distinct matches prefix a h =
    let same =
      decided (ltb 1 (count_char 0x2f prefix)) (matches (normalized prefix))
        (keys_of (normalized prefix)) a h in
    subst (λ b. Distinct (keys b)) same (keys_of-Distinct (normalized prefix))
