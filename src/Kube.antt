-- ===== src/Kube.antt =====
-- crates/flannel-core/src/subnet/kube: nodes, their annotations, and what the parts of the manager share.
-- A map of annotations is an association list; the parsers of the standard library and the printing of
-- addresses are parameters (Parsers).
pub mod Keys
pub mod Events
pub mod Enqueue
pub mod Hub
pub mod Informer
pub mod Frames
pub mod Acquire
pub mod Poll
pub mod Patch
use Prim.Native.String.{String}
use text.Mathlib.Text.{◌==◌ as str_eq}
use flannel_rust.Prelude.{ℕ, Bool, true, false, not, Option, none, some, List, [], ◌∷◌}
use flannel_rust.Prelude.Dict.{lookup}
use flannel_rust.Prelude.Result.{Result, ok, err}
use flannel_rust.Ip.V4.{Ip4, Ip4Net}
use flannel_rust.Ip.V6.{Ip6, Ip6Net}
use flannel_rust.Ip.Parse
use flannel_rust.Ip.Parse.{IpParseError}

abbrev pub AnnotationMap : Type 0
AnnotationMap = List (String × String)

pub record ObjectMeta : Type 0 where
  pub name : String
  pub uid : String
  pub resource_version : Option String
  pub annotations : AnnotationMap

pub record NodeSpec : Type 0 where
  pub pod_cidr : Option String
  pub pod_cidrs : List String

pub record Node : Type 0 where
  pub metadata : ObjectMeta
  pub spec : NodeSpec

-- The keys of the annotations.
pub record Annotations : Type 0 where
  pub subnet_kube_managed : String
  pub backend_data : String
  pub backend_v6_data : String
  pub backend_type : String
  pub backend_public_ip : String
  pub backend_public_ipv6 : String
  pub backend_node_public_ip : String
  pub backend_node_public_ipv6 : String
  pub backend_public_ip_overwrite : String
  pub backend_public_ipv6_overwrite : String

abbrev pub or_empty : Option String → String
or_empty none = ""
or_empty (some s) = s

unfoldable pub annotation : AnnotationMap → String → String
annotation m key = or_empty (lookup m key)

pub data KubeError : Type 0 where
  bad_ip : IpParseError → KubeError
  too_many_cidrs : String → KubeError
  missing_ipv4 missing_ipv6 : KubeError
  not_contained : Ip4Net → Ip4Net → String → KubeError
  not_contained6 : Ip6Net → Ip6Net → String → KubeError
  canceled deadline_exceeded : String → KubeError
  -- no error of the code: the rounds that are given are over
  still_waiting : KubeError

abbrev pub lift {ℓ} : {A : Type ℓ} → Result IpParseError A → Result KubeError A
lift (ok a) = ok a
lift (err e) = err (bad_ip e)

-- `Ipv4Addr::from_str`, `Ipv6Addr::from_str` and `u32::from_str`, the JSON text of a string that
-- holds one (`RawValue::from_string`), and the printing of addresses.
pub record Parsers : Type 0 where
  pub parse_addr4 : String → Option ℕ
  pub parse_addr6 : String → Option Ip6
  pub parse_u32 : String → Option ℕ
  pub raw_of : String → Option String
  pub show_ip4 : Ip4 → String
  pub show_ip6 : Ip6 → String

module _ (p : Parsers) where
  abbrev pub parse_ip4 : String → Result KubeError Ip4
  parse_ip4 s = lift (Parse.ip4_from_str p.parse_addr4 p.parse_u32 s)

  abbrev pub parse_ip6 : String → Result KubeError Ip6
  parse_ip6 s = lift (Parse.ip6_from_str p.parse_addr6 p.parse_u32 s)

  abbrev pub parse_net4 : String → Result KubeError Ip4Net
  parse_net4 s = lift (Parse.net4_from_str p.parse_addr4 p.parse_u32 s)

  abbrev pub parse_net6 : String → Result KubeError Ip6Net
  parse_net6 s = lift (Parse.net6_from_str p.parse_addr6 p.parse_u32 s)
