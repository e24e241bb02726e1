-- ===== src/Kube/Patch.antt =====
-- maybe_patch_annotations of subnet/kube/acquire.rs: the annotations of the own node and their patch.
pub mod Merge
pub mod Settled
use Prim.Native.String.{String}
use text.Mathlib.Text.{◌==◌ as str_eq}
use flannel_rust.Prelude.{
  ℕ, Bool, true, false, not, ◌&&◌, ◌||◌, Option, none, some, List, [], ◌∷◌, if◌then◌else◌,
}
use flannel_rust.Prelude.Dict.{lookup, insert}
use flannel_rust.Prelude.Result.{Result, ok, err}
use flannel_rust.Ip.V6.{Ip6}
use flannel_rust.Lease.{LeaseAttrs}
use flannel_rust.Kube.{AnnotationMap, Annotations, annotation, KubeError, Parsers}
use flannel_rust.Kube.Poll.{PatchRound, patch_with_retry}

-- The JSON text of backend data; `nil` marshals to "null".
abbrev pub raw_to_string : Option String → String
raw_to_string none = "null"
raw_to_string (some raw) = raw

abbrev pub is_value : Option String → String → Bool
is_value none v = false
is_value (some w) v = str_eq w v

-- The patch: the entries of the new annotations that the old ones do not hold.
unfoldable pub diff : AnnotationMap → AnnotationMap → AnnotationMap
diff old [] = []
diff old ((key, value) ∷ new) =
    if is_value (lookup old key) value then diff old new else (key, value) ∷ diff old new

module _ (p : Parsers) (a : Annotations) (attrs : LeaseAttrs) where
  abbrev pub bd : String
  bd = raw_to_string attrs.backend_data

  abbrev pub v6_bd : String
  v6_bd = raw_to_string attrs.backend_v6_data

  abbrev pub is_backend : String → Bool
  is_backend name = str_eq attrs.backend_type name

  -- Whether the annotations of a family differ from the attributes.
  abbrev pub family_changed : AnnotationMap → String → String → String → String → String → Bool
  family_changed ann data_key text ip_key overwrite_key ip =
      not (str_eq (annotation ann data_key) text)
      || (not (str_eq (annotation ann a.backend_type) attrs.backend_type)
          || (not (str_eq (annotation ann ip_key) ip)
              || (not (str_eq (annotation ann a.subnet_kube_managed) "true")
                  || (not (str_eq (annotation ann overwrite_key) "")
                      && not (str_eq (annotation ann overwrite_key) ip)))))

  unfoldable pub v4_changed : AnnotationMap → Bool
  v4_changed ann =
      family_changed ann a.backend_data bd a.backend_public_ip a.backend_public_ip_overwrite
        (p.show_ip4 attrs.public_ip)

  -- The IPv6 family, where there is an IPv6 address.
  abbrev pub v6_changed_of : Option Ip6 → AnnotationMap → Bool
  v6_changed_of none ann = false
  v6_changed_of (some ip) ann =
      family_changed ann a.backend_v6_data v6_bd a.backend_public_ipv6
        a.backend_public_ipv6_overwrite (p.show_ip6 ip)

  unfoldable pub v6_changed : AnnotationMap → Bool
  v6_changed ann = v6_changed_of attrs.public_ipv6 ann

  unfoldable pub needs_patch : AnnotationMap → Bool
  needs_patch ann = v4_changed ann || v6_changed ann

  -- The public address of a family, or its overwrite.
  abbrev pub set_public_ip : AnnotationMap → String → String → String → AnnotationMap
  set_public_ip ann ip_key overwrite_key ip =
      let overwrite = annotation ann overwrite_key in
      if not (str_eq overwrite "")
      then (if not (str_eq (annotation ann ip_key) overwrite)
          then insert ann ip_key overwrite
          else ann)
      else insert ann ip_key ip

  unfoldable pub set_v4 : AnnotationMap → AnnotationMap
  set_v4 ann =
      if not (is_backend "vxlan") || not (str_eq bd "null")
      then set_public_ip (insert ann a.backend_data bd) a.backend_public_ip
          a.backend_public_ip_overwrite (p.show_ip4 attrs.public_ip)
      else ann

  -- The condition on the backends that support IPv6, where there is an IPv6 address.
  abbrev pub sets_v6 : Bool
  sets_v6 =
      (is_backend "vxlan" && not (str_eq v6_bd "null"))
      || ((is_backend "wireguard" && not (str_eq v6_bd "null"))
          || (is_backend "host-gw" || is_backend "extension"))

  abbrev pub set_v6_of : Option Ip6 → AnnotationMap → AnnotationMap
  set_v6_of none ann = ann
  set_v6_of (some ip) ann =
      if sets_v6
      then set_public_ip (insert ann a.backend_v6_data v6_bd) a.backend_public_ipv6
          a.backend_public_ipv6_overwrite (p.show_ip6 ip)
      else ann

  unfoldable pub set_v6 : AnnotationMap → AnnotationMap
  set_v6 ann = set_v6_of attrs.public_ipv6 ann

  -- The annotations after the changes.
  unfoldable pub patched : AnnotationMap → AnnotationMap
  patched ann =
      insert (set_v6 (set_v4 (insert ann a.backend_type attrs.backend_type))) a.subnet_kube_managed
        "true"

  unfoldable pub maybe_patch_annotations :
      AnnotationMap → List PatchRound → Result KubeError (Unit {0})
  maybe_patch_annotations ann rounds =
      if needs_patch ann then patch_with_retry (diff ann (patched ann)) rounds else ok tt
