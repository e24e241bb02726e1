-- ===== src/Kube/Events/Leases.antt =====
-- What a lease says of its node.
use Prim.Native.String.{String}
use mathlib.Core.Bool.{false≢true}
use flannel_rust.Prelude.{
  ◌≡◌, ◌≤◌, ap, subst, ◌∙◌, arith, Bool, true, false, not, Option, none, some, List, [], ◌∷◌, ◌++◌,
  All, length, if◌then◌else◌, Bool-cases, inl, inr,
}
use flannel_rust.Prelude.Result.{Result, ok, ◌>>=◌, >>=-eq-ok}
use flannel_rust.Ip.V6.{Ip6}
use flannel_rust.Ip.Parse.{contains_char}
use flannel_rust.Lease.{Lease}
use flannel_rust.Kube.{
  Node, Annotations, annotation, or_empty, KubeError, missing_ipv4, missing_ipv6, Parsers,
  parse_ip4, parse_ip6, parse_net4, parse_net6,
}
use flannel_rust.Kube.Events.{
  colon, find_cidr, pick_cidr, cidr_text, or_missing, lease_ipv4, lease_ipv6, new_lease,
  node_to_lease,
}

-- The CIDRs of a node: its list, or the single one.
abbrev cidr_list : Option String → List String → List String
cidr_list cidr [] = or_empty cidr ∷ []
cidr_list cidr (c ∷ cs) = c ∷ cs

abbrev pub cidrs_of : Node → List String
cidrs_of node = cidr_list node.spec.pod_cidr node.spec.pod_cidrs

-- The first CIDR with a colon, or without one.
abbrev pub IsFirst : Bool → List String → String → Type 0
IsFirst v6 cs s =
    (before : List String) × (after : List String) × (cs ≡ before ++ (s ∷ after))
    × All (λ c. contains_char colon c ≡ not v6) before
    × (contains_char colon s ≡ v6)

find_cidr-IsFirst :
    (v6 : Bool) (cs : List String) (s : String) → find_cidr v6 cs ≡ some s → IsFirst v6 cs s
find_cidr-IsFirst v6 [] s h = cc
find_cidr-IsFirst true (c ∷ cs) s h = elim (Bool-cases (contains_char colon c)) [
  | inl e ↦ let same : c ≡ s = cc in ([], cs, cc, tt, cc)
  | inr n ↦
      let rest = find_cidr-IsFirst true cs s cc in (c ∷ rest.0, rest.1, cc, (n, rest.3), rest.4)
]
find_cidr-IsFirst false (c ∷ cs) s h = elim (Bool-cases (contains_char colon c)) [
  | inl e ↦
      let rest = find_cidr-IsFirst false cs s cc in (c ∷ rest.0, rest.1, cc, (e, rest.3), rest.4)
  | inr n ↦ let same : c ≡ s = cc in ([], cs, cc, tt, cc)
]

pick_cidr-ok :
    (v6 : Bool) (name : String) (cidr : Option String) (cs : List String) (s : String)
    → pick_cidr v6 name cidr cs ≡ ok (some s)
    → IsFirst v6 (cidr_list cidr cs) s × (length cs ≤ 2)
pick_cidr-ok v6 name cidr [] s h = (find_cidr-IsFirst v6 _ s cc, omega arith)
pick_cidr-ok v6 name cidr (c ∷ []) s h = (find_cidr-IsFirst v6 _ s cc, omega arith)
pick_cidr-ok v6 name cidr (c ∷ d ∷ []) s h = (find_cidr-IsFirst v6 _ s cc, omega arith)
pick_cidr-ok v6 name cidr (c ∷ d ∷ e ∷ cs) s h = cc

or_missing-ok {ℓ} :
    {A : Type ℓ} (o : Option A) (e : KubeError) (a : A) → or_missing o e ≡ ok a → o ≡ some a
or_missing-ok none e a h = cc
or_missing-ok (some b) e a h = cc

-- A lease of a node: for each enabled family, its subnet is the first pod CIDR of the family, parsed,
-- among at most two, and its public address is the annotation's.
module _ (p : Parsers) (ann : Annotations) (node : Node) where
  abbrev pub IsIpv4Of : Lease → Type 0
  IsIpv4Of l =
      (parse_ip4 p (annotation node.metadata.annotations ann.backend_public_ip)
        ≡ ok l.attrs.public_ip)
      × ((s : String) × IsFirst false (cidrs_of node) s
          × (length node.spec.pod_cidrs ≤ 2)
          × (parse_net4 p s ≡ ok l.subnet))

  abbrev pub IsIpv6Of : Lease → Type 0
  IsIpv6Of l =
      ((a : Ip6) × (parse_ip6 p (annotation node.metadata.annotations ann.backend_public_ipv6)
          ≡ ok a)
        × (l.attrs.public_ipv6 ≡ some a))
      × ((s : String) × IsFirst true (cidrs_of node) s
          × (length node.spec.pod_cidrs ≤ 2)
          × (parse_net6 p s ≡ ok l.ipv6_subnet))

  -- The CIDR of a family that was picked and parsed.
  picked :
      {A : Type 0} (v6 : Bool) (e : KubeError) (parse : String → Result KubeError A)
      (f : A → Result KubeError Lease) (m : Lease)
      → (cidr_text v6 node >>= λ found. or_missing found e >>= λ text. parse text >>= f) ≡ ok m
      → (s : String) × IsFirst v6 (cidrs_of node) s
        × (length node.spec.pod_cidrs ≤ 2)
        × ((cidr : A) × (parse s ≡ ok cidr) × (f cidr ≡ ok m))
  unfolding cidr_text
  picked v6 e parse f m h =
      let (found, found_ok, h1) = >>=-eq-ok (cidr_text v6 node) _ h in
      let (text, text_ok, h2) = >>=-eq-ok (or_missing found e) _ h1 in
      let (cidr, cidr_ok, h3) = >>=-eq-ok (parse text) _ h2 in
      let this = or_missing-ok found e text text_ok in
      let first =
        pick_cidr-ok v6 node.metadata.name node.spec.pod_cidr node.spec.pod_cidrs text
          (found_ok ∙ ap ok this) in
      (text, first.0, first.1, (cidr, cidr_ok, h3))

  lease_ipv4-ok :
      (l m : Lease)
      → lease_ipv4 p ann node l ≡ ok m
      → IsIpv4Of m × (m.enable_ipv4 ≡ true) × (m.enable_ipv6 ≡ l.enable_ipv6)
  unfolding lease_ipv4
  lease_ipv4-ok l m h =
      let (ip, ip_ok, h1) =
        >>=-eq-ok (parse_ip4 p (annotation node.metadata.annotations ann.backend_public_ip)) _ h in
      let (text, first, few, (cidr, cidr_ok, h2)) =
        picked false missing_ipv4 (parse_net4 p) _ m h1 in
      ((cc, (text, first, few, cc)), cc, cc)

  lease_ipv6-ok :
      (l m : Lease)
      → lease_ipv6 p ann node l ≡ ok m
      → IsIpv6Of m
        × (m.enable_ipv6 ≡ true)
        × (m.enable_ipv4 ≡ l.enable_ipv4)
        × (m.subnet ≡ l.subnet)
        × (m.attrs.public_ip ≡ l.attrs.public_ip)
  unfolding lease_ipv6
  lease_ipv6-ok l m h =
      let (ip, ip_ok, h1) =
        >>=-eq-ok (parse_ip6 p (annotation node.metadata.annotations ann.backend_public_ipv6)) _
          h in
      let (text, first, few, (cidr, cidr_ok, h2)) =
        picked true missing_ipv6 (parse_net6 p) _ m h1 in
      (((ip, ip_ok, cc), (text, first, few, cc)), cc, cc, cc, cc)

  moved :
      (l m : Lease)
      → IsIpv4Of l
      → m.subnet ≡ l.subnet
      → m.attrs.public_ip ≡ l.attrs.public_ip
      → IsIpv4Of m
  moved l m (ip, (s, first, few, net)) same_net same_ip = (cc, (s, first, few, cc))

  moved6 :
      (l m : Lease)
      → IsIpv6Of l
      → m.ipv6_subnet ≡ l.ipv6_subnet
      → m.attrs.public_ipv6 ≡ l.attrs.public_ipv6
      → IsIpv6Of m
  moved6 l m ((a, ip, some_ip), (s, first, few, net)) same_net same_ip =
      ((a, ip, cc), (s, first, few, cc))

  -- The two steps of node_to_lease, each taken for an enabled family.
  step4-ok :
      (v4 : Bool) (l : Lease)
      → (if v4 then lease_ipv4 p ann node new_lease else ok new_lease) ≡ ok l
      → (v4 ≡ true → IsIpv4Of l) × (l.enable_ipv4 ≡ v4) × (l.enable_ipv6 ≡ false)
  step4-ok true l h = let got = lease_ipv4-ok new_lease l h in ((λ e. got.0), got.1, got.2)
  step4-ok false l h = ((λ e. absurd (false≢true e)), cc, cc)

  step6-ok :
      (v4 v6 : Bool) (l m : Lease)
      → (if v6 then lease_ipv6 p ann node l else ok l) ≡ ok m
      → (v4 ≡ true → IsIpv4Of l)
      → l.enable_ipv6 ≡ false
      → (v4 ≡ true → IsIpv4Of m)
        × (v6 ≡ true → IsIpv6Of m)
        × (m.enable_ipv4 ≡ l.enable_ipv4)
        × (m.enable_ipv6 ≡ v6)
  step6-ok v4 true l m h own off =
      let got = lease_ipv6-ok l m h in
      ((λ e. moved l m (own e) got.3 got.4), (λ e. got.0), got.2, got.1)
  step6-ok v4 false l m h own off =
      let same : l ≡ m = cc in
      ((λ e. subst IsIpv4Of same (own e)), (λ e. absurd (false≢true e)), cc, cc)

  -- A lease that node_to_lease gives: its families are the enabled ones; for each of them its public address
  -- is the annotation's, and its subnet the first pod CIDR of the family, parsed, of at most two; and
  -- its backend type is the annotation's.
  pub node_to_lease-ok :
      (v4 v6 : Bool) (l : Lease)
      → node_to_lease p ann node v4 v6 ≡ ok l
      → (v4 ≡ true → IsIpv4Of l)
        × (v6 ≡ true → IsIpv6Of l)
        × (l.enable_ipv4 ≡ v4)
        × (l.enable_ipv6 ≡ v6)
        × (l.attrs.backend_type ≡ annotation node.metadata.annotations ann.backend_type)
  unfolding node_to_lease
  node_to_lease-ok v4 v6 l h =
      let (a, a_ok, h1) =
        >>=-eq-ok (if v4 then lease_ipv4 p ann node new_lease else ok new_lease) _ h in
      let (b, b_ok, h2) = >>=-eq-ok (if v6 then lease_ipv6 p ann node a else ok a) _ h1 in
      let first = step4-ok v4 a a_ok in
      let second = step6-ok v4 v6 a b b_ok first.0 first.2 in
      let same4 : l.subnet ≡ b.subnet = cc in
      let same_ip4 : l.attrs.public_ip ≡ b.attrs.public_ip = cc in
      let same6 : l.ipv6_subnet ≡ b.ipv6_subnet = cc in
      let same_ip6 : l.attrs.public_ipv6 ≡ b.attrs.public_ipv6 = cc in
      (
        (λ e. moved b l (second.0 e) same4 same_ip4),
        (λ e. moved6 b l (second.1 e) same6 same_ip6),
        cc,
        cc,
        cc,
      )
