-- ===== src/Kube/Patch/Settled.antt =====
-- After the patch nothing is left to change.
use Prim.Native.String.{String}
use text.Mathlib.Text.{◌==◌ as str_eq}
use text.Mathlib.TextPositions.{eq_refl}
use flannel_rust.Prelude.{◌≡◌, refl, ap, ◌∙◌, true, false, not, ◌||◌, none}
use flannel_rust.Prelude.Dict.{lookup, insert, lookup-insert}
use flannel_rust.Lease.{LeaseAttrs}
use flannel_rust.Kube.{AnnotationMap, Annotations, annotation, Parsers}
use flannel_rust.Kube.Keys.Distinct.{Distinct, keys}
use flannel_rust.Kube.Patch.{
  diff, bd, is_backend, set_v4, set_v6, v4_changed, v6_changed, needs_patch, patched,
}
use flannel_rust.Kube.Patch.Merge.{merge, IsUnique, merge-diff-patched}

annotation-insert_same : (m : AnnotationMap) (k v : String) → annotation (insert m k v) k ≡ v
unfolding annotation
annotation-insert_same m k v = rw (lookup-insert m k k v, eq_refl k) refl

annotation-insert_other :
    (m : AnnotationMap) (k j v : String)
    → str_eq k j ≡ false
    → annotation (insert m k v) j ≡ annotation m j
unfolding annotation
annotation-insert_other m k j v n = rw (lookup-insert m k j v, n) refl

-- Without IPv6, the test reads only what the annotations hold.
needs_patch_same :
    (p : Parsers) (a : Annotations) (attrs : LeaseAttrs) (m n : AnnotationMap)
    → attrs.public_ipv6 ≡ none
    → ((k : String) → lookup m k ≡ lookup n k)
    → needs_patch p a attrs m ≡ needs_patch p a attrs n
unfolding needs_patch v4_changed v6_changed annotation
needs_patch_same p a attrs m n no_ipv6 same =
    rw
      (
        no_ipv6,
        same a.backend_data,
        same a.backend_type,
        same a.backend_public_ip,
        same a.subnet_kube_managed,
        same a.backend_public_ip_overwrite,
      )
      refl

module _ (p : Parsers) (a : Annotations) (attrs : LeaseAttrs) (old : AnnotationMap) where
  -- The annotations where only IPv4 is set and no overwrite is.
  abbrev typed : AnnotationMap
  typed = insert old a.backend_type attrs.backend_type

  abbrev with_data : AnnotationMap
  with_data = insert typed a.backend_data (bd p a attrs)

  abbrev with_ip : AnnotationMap
  with_ip = insert with_data a.backend_public_ip (p.show_ip4 attrs.public_ip)

  abbrev settled : AnnotationMap
  settled = insert with_ip a.subnet_kube_managed "true"

  module _ (d : Distinct (keys a)) where
    settled_at :
        (annotation settled a.backend_data ≡ bd p a attrs)
        × (annotation settled a.backend_type ≡ attrs.backend_type)
        × (annotation settled a.backend_public_ip ≡ p.show_ip4 attrs.public_ip)
        × (annotation settled a.subnet_kube_managed ≡ "true")
        × (annotation settled a.backend_public_ip_overwrite
            ≡ annotation old a.backend_public_ip_overwrite)
        × (annotation with_data a.backend_public_ip_overwrite
            ≡ annotation old a.backend_public_ip_overwrite)
    settled_at =
        let (
          (m6, (m6d, (m_ip, (m_data, (m_type, (m_over, m_rest)))))),
          (
            d1,
            (
              d2,
              (
                (i_data, (i_type, (i_over, i_rest))),
                ((d_type, (d_over, d_rest)), ((t_over, t_rest), d6)),
              ),
            ),
          ),
        ) =
          d in
        (
          simp (annotation-insert_same, annotation-insert_other, m_data, i_data),
          simp (annotation-insert_same, annotation-insert_other, m_type, i_type, d_type),
          simp (annotation-insert_same, annotation-insert_other, m_ip),
          simp annotation-insert_same,
          simp (annotation-insert_other, m_over, i_over, d_over, t_over),
          simp (annotation-insert_other, d_over, t_over),
        )

    module _ (no_overwrite : annotation old a.backend_public_ip_overwrite ≡ "")
        (no_ipv6 : attrs.public_ipv6 ≡ none) where
      patched-settled :
          (not (is_backend p a attrs "vxlan") || not (str_eq (bd p a attrs) "null")) ≡ true
          → patched p a attrs old ≡ settled
      unfolding patched set_v4 set_v6
      patched-settled sets =
          let at = settled_at in
          let overwrite : annotation with_data a.backend_public_ip_overwrite ≡ "" =
            at.5 ∙ no_overwrite in
          rw (no_ipv6, sets, overwrite) refl

      settled-needs_patch : needs_patch p a attrs settled ≡ false
      unfolding needs_patch v4_changed v6_changed
      settled-needs_patch =
          let at = settled_at in
          rw (no_ipv6, at.0, at.1, at.2, at.3, at.4, no_overwrite) (simp eq_refl)

      -- Annotation keys that are all different, annotations without two entries for a key and without an
      -- overwrite of the public IPv4 address, attributes without a public IPv6 address, and a backend other
      -- than vxlan or with backend data: once the server has merged the patch, the annotations
      -- need no patch.
      pub needs_patch-merge :
          IsUnique old
          → (not (is_backend p a attrs "vxlan") || not (str_eq (bd p a attrs) "null")) ≡ true
          → needs_patch p a attrs (merge old (diff old (patched p a attrs old))) ≡ false
      needs_patch-merge unique sets =
          let merged = merge old (diff old (patched p a attrs old)) in
          let same : (k : String) → lookup merged k ≡ lookup settled k = λ k.
            merge-diff-patched p a attrs old k unique
            ∙ ap (λ m. lookup m k) (patched-settled sets) in
          needs_patch_same p a attrs merged settled no_ipv6 same ∙ settled-needs_patch
