-- ===== src/Lease.antt =====
-- crates/flannel-core/src/lease/mod.rs: leases, events and the lease watcher. A `None` of the
-- watcher's methods is the panic of `expect` on a missing own lease.
pub mod Key
pub mod Stored
pub mod Update
pub mod Reset
use Prim.Native.String.{String}
use text.Mathlib.Text.{◌==◌ as str_eq}
use flannel_rust.Prelude.{
  ℕ, Bool, true, false, not, ◌&&◌, ◌||◌, Option, none, some, List, [], ◌∷◌, ◌++◌, if◌then◌else◌,
  ◌==◌,
}
use flannel_rust.Prelude.Int.{ℤ}
use flannel_rust.Ip.V4
use flannel_rust.Ip.V4.{Ip4, Ip4Net}
use flannel_rust.Ip.V6
use flannel_rust.Ip.V6.{Ip6, Ip6Net}

pub data EventType : Type 0 where
  added removed : EventType

-- A `RawValue` is its JSON text.
pub record LeaseAttrs : Type 0 where
  pub public_ip : Ip4
  pub public_ipv6 : Option Ip6
  pub backend_type : String
  pub backend_data : Option String
  pub backend_v6_data : Option String

abbrev pub default_attrs : LeaseAttrs
default_attrs = record {
  public_ip = 0;
  public_ipv6 = none;
  backend_type = "";
  backend_data = none;
  backend_v6_data = none;
}

-- `expiration` is in seconds since the epoch.
pub record Lease : Type 0 where
  pub enable_ipv4 : Bool
  pub enable_ipv6 : Bool
  pub subnet : Ip4Net
  pub ipv6_subnet : Ip6Net
  pub attrs : LeaseAttrs
  pub expiration : ℕ
  pub asof : ℤ

pub record Event : Type 0 where
  pub event_type : EventType
  pub lease : Lease

unfoldable pub raw_eq : Option String → Option String → Bool
raw_eq (some x) (some y) = str_eq x y
raw_eq none none = true
raw_eq (some x) none = false
raw_eq none (some y) = false

ip6_option_eq : Option Ip6 → Option Ip6 → Bool
ip6_option_eq (some x) (some y) = V6.ip_eq x y
ip6_option_eq none none = true
ip6_option_eq (some x) none = false
ip6_option_eq none (some y) = false

unfoldable pub attrs_eq : LeaseAttrs → LeaseAttrs → Bool
unfolding raw_eq ip6_option_eq
attrs_eq a other =
    a.public_ip == other.public_ip
    && (ip6_option_eq a.public_ipv6 other.public_ipv6
        && (str_eq a.backend_type other.backend_type
            && (raw_eq a.backend_data other.backend_data
                && raw_eq a.backend_v6_data other.backend_v6_data)))

unfoldable pub same_subnet : Bool → Bool → Lease → Lease → Bool
same_subnet ipv4_enabled ipv6_enabled first second =
    let v4 = V4.net_eq first.subnet second.subnet in
    let v6 = V6.net_eq first.ipv6_subnet second.ipv6_subnet in
    if ipv4_enabled && (not ipv6_enabled && v4)
    then true
    else if not ipv4_enabled && (ipv6_enabled && v6)
    then true
    else if ipv4_enabled && (ipv6_enabled && (v4 && v6))
    then true
    else if not ipv4_enabled && (not ipv6_enabled && v4)
    then true
    else false

-- Either events or a snapshot.
pub record LeaseWatchResult : Type 0 where
  pub events : List Event
  pub snapshot : List Lease

pub record LeaseWatcher : Type 0 where
  pub own_lease : Option Lease
  pub leases : List Lease

unfoldable pub new_watcher : Lease → LeaseWatcher
new_watcher own = record { own_lease = some own; leases = [] }

-- The test of the loops over the stored leases: the flags are those of the stored lease.
abbrev pub stored_match : Lease → Lease → Bool
stored_match l lease = same_subnet l.enable_ipv4 l.enable_ipv6 l lease

-- The test against the own lease: the flags are those of the other one.
abbrev pub own_match : Lease → Lease → Bool
own_match own l = same_subnet l.enable_ipv4 l.enable_ipv6 own l

abbrev pub event : EventType → Lease → Event
event t l = record { event_type = t; lease = l }

-- `self.leases.remove(i)` at the first match, and the lease that it takes out.
unfoldable pub take_match : List Lease → Lease → Option (Lease × List Lease)
take_match [] lease = none
take_match (l ∷ ls) lease =
    if stored_match l lease
    then some (l, ls)
    else elim (take_match ls lease) [ none ↦ none | some (found, rest) ↦ some (found, l ∷ rest) ]

-- `self.leases[i] = lease` at the first match.
unfoldable pub replace_match : List Lease → Lease → Option (List Lease)
replace_match [] lease = none
replace_match (l ∷ ls) lease =
    if stored_match l lease
    then some (lease ∷ ls)
    else elim (replace_match ls lease) [ none ↦ none | some rest ↦ some (l ∷ rest) ]

-- `add`, on the stored leases.
unfoldable pub add : List Lease → Lease → List Lease × Event
unfolding replace_match
add ls lease = elim (replace_match ls lease) [
  | some ls' ↦ (ls', event added lease)
  | none ↦ (ls ++ (lease ∷ []), event added lease)
]

-- `remove`, on the stored leases.
unfoldable pub remove : List Lease → Lease → List Lease × Event
unfolding take_match
remove ls lease = elim (take_match ls lease) [
  | some (found, rest) ↦ (rest, event removed found)
  | none ↦ (ls, event removed lease)
]

apply_event : EventType → List Lease → Lease → List Lease × Event
unfolding add remove
apply_event added ls lease = add ls lease
apply_event removed ls lease = remove ls lease

-- The loop of `update`: the stored leases and the batch so far.
unfoldable pub update_step : Lease → List Lease × List Event → Event → List Lease × List Event
unfolding apply_event
update_step own (ls, batch) e =
    if own_match own e.lease
    then (ls, batch)
    else (let (ls', out) = apply_event e.event_type ls e.lease in (ls', batch ++ (out ∷ [])))

unfoldable pub update_loop : Lease → List Lease × List Event → List Event → List Lease × List Event
unfolding update_step
update_loop own s [] = s
update_loop own s (e ∷ es) = update_loop own (update_step own s e) es

unfoldable pub update : LeaseWatcher → List Event → Option (LeaseWatcher × List Event)
unfolding update_loop
update w events = elim w.own_lease [
  | none ↦ none
  | some own ↦
      let (ls, batch) = update_loop own (w.leases, []) events in
      some (record w { leases = ls }, batch)
]

-- The loop of `reset` over the snapshot.
unfoldable pub reset_step : Lease → List Lease × List Event → Lease → List Lease × List Event
unfolding take_match
reset_step own (ls, batch) nl = if own_match own nl then (ls, batch) else elim (take_match ls nl) [
  | some (found, rest) ↦ (rest, batch)
  | none ↦ (ls, batch ++ (event added nl ∷ []))
]

unfoldable pub reset_loop : Lease → List Lease × List Event → List Lease → List Lease × List Event
unfolding reset_step
reset_loop own s [] = s
reset_loop own s (nl ∷ nls) = reset_loop own (reset_step own s nl) nls

-- The loop over what is left of the stored leases.
unfoldable pub removed_events : List Lease → List Event
removed_events [] = []
removed_events (l ∷ ls) = event removed l ∷ removed_events ls

unfoldable pub reset : LeaseWatcher → List Lease → Option (LeaseWatcher × List Event)
unfolding reset_loop removed_events
reset w snapshot = elim w.own_lease [
  | none ↦ none
  | some own ↦
      let (left, batch) = reset_loop own (w.leases, []) snapshot in
      some (record w { leases = snapshot }, batch ++ removed_events left)
]
