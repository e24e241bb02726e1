-- ===== src/Kube/Patch/Merge.antt =====
-- Merging the patch into the old annotations gives the new ones.
use Prim.Native.String.{String}
use text.Mathlib.Text.{◌==◌ as str_eq}
use text.Mathlib.TextEquality.{eq_iff}
use flannel_rust.Prelude.{
  ◌≡◌, refl, ap, sym, ◌∙◌, Bool, true, false, not, ◌||◌, Option, none, some, [], ◌∷◌, if◌then◌else◌,
  Bool-cases, inl, inr,
}
use flannel_rust.Prelude.Dict.{lookup, insert, lookup-insert, str_eq_sym}
use flannel_rust.Ip.V6.{Ip6}
use flannel_rust.Lease.{LeaseAttrs}
use flannel_rust.Kube.{AnnotationMap, Annotations, annotation, Parsers}
use flannel_rust.Kube.Patch.{
  is_value, diff, bd, v6_bd, is_backend, sets_v6, set_public_ip, set_v4, set_v6_of, set_v6, patched,
}

-- What a strategic merge patch does to the annotations of the node.
abbrev pub merge : AnnotationMap → AnnotationMap → AnnotationMap
merge m [] = m
merge m ((key, value) ∷ patch) = merge (insert m key value) patch

-- No key has two entries.
abbrev pub IsUnique : AnnotationMap → Type 0
IsUnique [] = Unit
IsUnique ((key, value) ∷ m) = (lookup m key ≡ none) × IsUnique m

abbrev pub or_else : Option String → Option String → Option String
or_else none known = known
or_else (some v) known = some v

lookup_same : (m : AnnotationMap) (k j : String) → str_eq k j ≡ true → lookup m k ≡ lookup m j
lookup_same m k j e = ap (lookup m) ((eq_iff k j).0 e)

lookup-merge :
    (patch m : AnnotationMap) (k : String)
    → IsUnique patch
    → lookup (merge m patch) k ≡ or_else (lookup patch k) (lookup m k)
unfolding lookup
lookup-merge [] m k u = refl
lookup-merge ((key, value) ∷ patch) m k u = elim (Bool-cases (str_eq key k)) [
  | inl e ↦
      let gone : lookup patch k ≡ none = sym (lookup_same patch key k e) ∙ u.0 in
      rw (lookup-merge patch (insert m key value) k u.1, gone, lookup-insert m key k value, e) refl
  | inr n ↦ rw (lookup-merge patch (insert m key value) k u.1, lookup-insert m key k value, n) refl
]

is_value-some : (o : Option String) (v : String) → is_value o v ≡ true → o ≡ some v
is_value-some none v h = cc
is_value-some (some w) v h = ap some ((eq_iff w v).0 h)

missing :
    (b : Bool) (v : String) (o : Option String)
    → (if b then some v else o) ≡ none
    → (b ≡ false) × (o ≡ none)
missing true v o h = cc
missing false v o h = (refl, h)

diff-none :
    (old new : AnnotationMap) (k : String) → lookup new k ≡ none → lookup (diff old new) k ≡ none
unfolding lookup diff
diff-none old [] k h = refl
diff-none old ((key, value) ∷ new) k h =
    let (n, later) = missing (str_eq key k) value (lookup new k) h in
    elim (Bool-cases (is_value (lookup old key) value)) [
      | inl same ↦ rw same (diff-none old new k later)
      | inr changed ↦ rw (changed, n) (diff-none old new k later)
    ]

diff-IsUnique : (old new : AnnotationMap) → IsUnique new → IsUnique (diff old new)
unfolding diff
diff-IsUnique old [] u = tt
diff-IsUnique old ((key, value) ∷ new) u = elim (Bool-cases (is_value (lookup old key) value)) [
  | inl same ↦ rw same (diff-IsUnique old new u.1)
  | inr changed ↦ rw changed (diff-none old new key u.0, diff-IsUnique old new u.1)
]

lookup-diff :
    (old new : AnnotationMap) (k : String)
    → IsUnique new
    → or_else (lookup (diff old new) k) (lookup old k) ≡ or_else (lookup new k) (lookup old k)
unfolding lookup diff
lookup-diff old [] k u = refl
lookup-diff old ((key, value) ∷ new) k u = elim (Bool-cases (is_value (lookup old key) value)) [
  | inl same ↦ elim (Bool-cases (str_eq key k)) [
    | inl e ↦
        let held : lookup old k ≡ some value =
          sym (lookup_same old key k e) ∙ is_value-some _ value same in
        let gone : lookup new k ≡ none = sym (lookup_same new key k e) ∙ u.0 in
        rw (same, e) (lookup-diff old new k u.1 ∙ rw (gone, held) refl)
    | inr n ↦ rw (same, n) (lookup-diff old new k u.1)
  ]
  | inr changed ↦ elim (Bool-cases (str_eq key k)) [
    | inl e ↦ rw (changed, e) refl
    | inr n ↦ rw (changed, n) (lookup-diff old new k u.1)
  ]
]

or_else_self : (o known : Option String) → (o ≡ none → known ≡ none) → or_else o known ≡ o
or_else_self none known h = h refl
or_else_self (some v) known h = refl

-- The merge of a patch that covers the old keys.
merge-diff :
    (old new : AnnotationMap) (k : String)
    → IsUnique new
    → (lookup new k ≡ none → lookup old k ≡ none)
    → lookup (merge old (diff old new)) k ≡ lookup new k
merge-diff old new k u covers =
    lookup-merge (diff old new) old k (diff-IsUnique old new u)
    ∙ (lookup-diff old new k u ∙ or_else_self (lookup new k) (lookup old k) covers)

insert-none :
    (m : AnnotationMap) (k j v : String)
    → lookup m j ≡ none
    → str_eq k j ≡ false
    → lookup (insert m k v) j ≡ none
insert-none m k j v h n = rw (lookup-insert m k j v, n) h

insert-IsUnique : (m : AnnotationMap) (k v : String) → IsUnique m → IsUnique (insert m k v)
unfolding insert lookup
insert-IsUnique [] k v u = (refl, tt)
insert-IsUnique ((j, w) ∷ m) k v u = elim (Bool-cases (str_eq j k)) [
  | inl e ↦ rw e u
  | inr n ↦ rw n (insert-none m k j v u.0 (str_eq_sym k j ∙ n), insert-IsUnique m k v u.1)
]

-- Unique keys, and every key of the old annotations.
abbrev pub Grows : AnnotationMap → AnnotationMap → Type 0
Grows old new = IsUnique new × ((k : String) → lookup new k ≡ none → lookup old k ≡ none)

Grows-insert : (old new : AnnotationMap) (k v : String) → Grows old new → Grows old (insert new k v)
Grows-insert old new k v (u, covers) = (
  insert-IsUnique new k v u,
  λ j h. covers j (missing (str_eq k j) v (lookup new j) (sym (lookup-insert new k j v) ∙ h)).1,
)

Grows-if :
    (old m n : AnnotationMap) (b : Bool)
    → Grows old m
    → Grows old n
    → Grows old (if b then m else n)
Grows-if old m n true g h = g
Grows-if old m n false g h = h

module _ (p : Parsers) (a : Annotations) (attrs : LeaseAttrs) (old : AnnotationMap) where
  set_public_ip-Grows :
      (m : AnnotationMap) (ip_key overwrite_key ip : String)
      → Grows old m
      → Grows old (set_public_ip p a attrs m ip_key overwrite_key ip)
  set_public_ip-Grows m ip_key overwrite_key ip g =
      Grows-if old _ _ (not (str_eq (annotation m overwrite_key) ""))
        (Grows-if old _ _ (not (str_eq (annotation m ip_key) (annotation m overwrite_key)))
          (Grows-insert old m ip_key (annotation m overwrite_key) g) g)
        (Grows-insert old m ip_key ip g)

  set_v4-Grows : (m : AnnotationMap) → Grows old m → Grows old (set_v4 p a attrs m)
  unfolding set_v4
  set_v4-Grows m g =
      Grows-if old _ _ (not (is_backend p a attrs "vxlan") || not (str_eq (bd p a attrs) "null"))
        (set_public_ip-Grows (insert m a.backend_data (bd p a attrs)) a.backend_public_ip
          a.backend_public_ip_overwrite (p.show_ip4 attrs.public_ip)
          (Grows-insert old m a.backend_data (bd p a attrs) g))
        g

  set_v6_of-Grows :
      (o : Option Ip6) (m : AnnotationMap) → Grows old m → Grows old (set_v6_of p a attrs o m)
  set_v6_of-Grows none m g = g
  set_v6_of-Grows (some ip) m g =
      Grows-if old _ _ (sets_v6 p a attrs)
        (set_public_ip-Grows (insert m a.backend_v6_data (v6_bd p a attrs)) a.backend_public_ipv6
          a.backend_public_ipv6_overwrite (p.show_ip6 ip)
          (Grows-insert old m a.backend_v6_data (v6_bd p a attrs) g))
        g

  patched-Grows : IsUnique old → Grows old (patched p a attrs old)
  unfolding patched set_v6
  patched-Grows u =
      let first = Grows-insert old old a.backend_type attrs.backend_type (u, λ k h. h) in
      let second = set_v4-Grows (insert old a.backend_type attrs.backend_type) first in
      let third = set_v6_of-Grows attrs.public_ipv6 _ second in
      Grows-insert old _ a.subnet_kube_managed "true" third

  -- The patch of annotations without two entries for a key, merged into them, gives under every key what
  -- the changed annotations have.
  pub merge-diff-patched :
      (k : String)
      → IsUnique old
      → lookup (merge old (diff old (patched p a attrs old))) k ≡ lookup (patched p a attrs old) k
  merge-diff-patched k u =
      let grows = patched-Grows u in merge-diff old (patched p a attrs old) k grows.0 (grows.1 k)
