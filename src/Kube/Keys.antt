-- ===== src/Kube/Keys.antt =====
-- new_annotations of subnet/kube/annotations.rs. The regular expression is the parameter `matches`.
pub mod Distinct
use Prim.Native.Char.{code}
use Prim.Native.String.{String}
use flannel_rust.Prelude.{ℕ, ◌+◌, Bool, true, false, ◌||◌, ltb, ◌==◌, if◌then◌else◌}
use flannel_rust.Prelude.Result.{Result, ok, err}
use flannel_rust.Kube.{Annotations}

pub data PrefixError : Type 0 where
  many_slashes not_a_prefix : PrefixError

abbrev pub count_char : ℕ → String → ℕ
count_char k String.[] = 0
count_char k (String.◌∷◌ c s) = if code c == k then 1 + count_char k s else count_char k s

-- The code of the last character, or what is given.
abbrev pub last_code : ℕ → String → ℕ
last_code k String.[] = k
last_code k (String.◌∷◌ c s) = last_code (code c) s

-- `push_str` and `format!("{prefix}...")`
abbrev pub append : String → String → String
append String.[] t = t
append (String.◌∷◌ c s) t = String.◌∷◌ c (append s t)

unfoldable pub normalized : String → String
normalized prefix =
    let slashed = if count_char 0x2f prefix == 0 then append prefix "/" else prefix in
    let last = last_code 0 slashed in
    if last == 0x2f || last == 0x2d then slashed else append slashed "-"

abbrev pub keys_of : String → Annotations
keys_of prefix = record {
  subnet_kube_managed = append prefix "kube-subnet-manager";
  backend_data = append prefix "backend-data";
  backend_v6_data = append prefix "backend-v6-data";
  backend_type = append prefix "backend-type";
  backend_public_ip = append prefix "public-ip";
  backend_public_ipv6 = append prefix "public-ipv6";
  backend_node_public_ip = append prefix "node-public-ip";
  backend_node_public_ipv6 = append prefix "node-public-ipv6";
  backend_public_ip_overwrite = append prefix "public-ip-overwrite";
  backend_public_ipv6_overwrite = append prefix "public-ipv6-overwrite";
}

unfoldable pub new_annotations : (String → Bool) → String → Result PrefixError Annotations
new_annotations matches prefix =
    if ltb 1 (count_char 0x2f prefix)
    then err many_slashes
    else if matches (normalized prefix)
    then ok (keys_of (normalized prefix))
    else err not_a_prefix
