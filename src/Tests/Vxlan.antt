-- ===== src/Tests/Vxlan.antt =====
-- Runs of crates/flannel-core/src/backend/vxlan, over a kernel that is its tables, and of the MAC addresses.
use Prim.Native.String.{String}
use flannel_rust.Prelude.{
  ℕ, zero, suc, ◌+◌, ◌≤◌, ◌≡◌, ◌↔◌, ◌≢◌, refl, sym, ap, arith, false, Option, none, some, List, [],
  ◌∷◌, map,
}
use flannel_rust.Prelude.Radix.{u8_from_str_radix, magnitude}
use flannel_rust.Prelude.Result.{Result, ok, err, err≢ok}
use flannel_rust.Lease.{Event, added, removed, event}
use flannel_rust.Mac.{parse_mac, mac_to_string, new_hardware_addr}
use flannel_rust.Mac.Spelling.{parse_mac-mac_to_string}
use flannel_rust.Routes.{addr4}
use flannel_rust.Vxlan.{
  Entry, arp, fdb, route, Request, replace_entry, delete_entry, Answer, VxlanDevice, NetState,
  World, v4_vxlan_route, v4_direct_route,
}
use flannel_rust.Vxlan.Events.{
  JsonValue, json_string, DecodeError, Part, add_part, handle_subnet_events,
}
use flannel_rust.Vxlan.Requests.{wanted}
use flannel_rust.Vxlan.Programmed.{batch_requests, handle_subnet_events-effects}
use flannel_rust.Vxlan.Retry.{IsMetered, attempts, retry_do, retry_do_bounds, retry_do_iff, Fails}
use flannel_rust.Vxlan.Rollback.{Comes, add_part_outcome}
use flannel_rust.Vxlan.Tables.{Table, effect, effects, IsKernel}
use flannel_rust.Tests.Kube.{lease}

abbrev device : VxlanDevice
device = record {
  name = "flannel.1";
  ifindex = 7;
  mtu = 1450;
  mac = 2 ∷ 0 ∷ 0 ∷ 0 ∷ 0 ∷ 9 ∷ [];
  direct_routing = false;
}

abbrev devices : NetState
devices = record { dev = some device; v6_dev = none }

-- The remote VTEP's data, whatever the text.
abbrev remote_mac : String → Result DecodeError (ℕ × JsonValue)
remote_mac s = ok (1, json_string "02:00:00:00:00:0a")

no_route : String → Result String (List Entry)
no_route s = ok []

-- A kernel that does what it is asked.
abbrev willing : World Table
willing = record {
  execute = λ t r. (effect r t, ok tt);
  route_get = λ t ip. ok [];
  net_state = λ t. devices;
  sleep = λ t d. some t;
}

accepted : (e : String) → ◌≢◌ {A = Answer} (ok tt) (err e)
accepted e h = cc

willing-IsKernel : IsKernel willing (λ t. t)
willing-IsKernel = record {
  done = λ t r h. refl;
  refused = λ t r e h. absurd (accepted e h);
  slept = λ t t' d h. cc;
}

abbrev empty_tables : Table
empty_tables s = none

abbrev batch : List Event
batch = event added lease ∷ event removed lease ∷ event added lease ∷ []

handle_subnet_events-effects_example :
    handle_subnet_events remote_mac willing batch empty_tables
    ≡ effects (batch_requests remote_mac willing empty_tables batch) empty_tables
handle_subnet_events-effects_example =
    handle_subnet_events-effects remote_mac willing (λ t r. refl) (λ t. t) willing-IsKernel batch
      empty_tables

-- A kernel with no room for another FDB entry.
abbrev full_answer : Table → Request → Table × Answer
full_answer t (replace_entry (fdb i mac dst)) = (t, err "no space")
full_answer t (replace_entry (arp i mac ip)) = (effect (replace_entry (arp i mac ip)) t, ok tt)
full_answer t (replace_entry (route m)) = (effect (replace_entry (route m)) t, ok tt)
full_answer t (delete_entry e) = (effect (delete_entry e) t, ok tt)

abbrev full : World Table
full = record willing { execute = full_answer }

full-done :
    (t : Table) (r : Request) → (full_answer t r).1 ≡ ok tt → (full_answer t r).0 ≡ effect r t
full-done t (replace_entry (fdb i mac dst)) h = absurd (err≢ok "no space" tt h)
full-done t (replace_entry (arp i mac ip)) h = refl
full-done t (replace_entry (route m)) h = refl
full-done t (delete_entry e) h = refl

full-refused :
    (t : Table) (r : Request) (e : String) → (full_answer t r).1 ≡ err e → (full_answer t r).0 ≡ t
full-refused t (replace_entry (fdb i mac dst)) e h = refl
full-refused t (replace_entry (arp i mac ip)) e h = absurd (accepted e h)
full-refused t (replace_entry (route m)) e h = absurd (accepted e h)
full-refused t (delete_entry d) e h = absurd (accepted e h)

full-IsKernel : IsKernel full (λ t. t)
full-IsKernel = record { done = full-done; refused = full-refused; slept = λ t t' d h. cc }

abbrev part : Part
part = record {
  dev = device;
  mac = 2 ∷ 0 ∷ 0 ∷ 0 ∷ 0 ∷ 10 ∷ [];
  vxlan_route = v4_vxlan_route 7 lease.subnet;
  direct_route = v4_direct_route lease.subnet lease.attrs.public_ip;
  direct_ok = false;
  gw = addr4 lease.subnet.ip;
  vtep = addr4 lease.attrs.public_ip;
}

add_part_outcome_example :
    Comes
      (λ t. t)
      (map replace_entry (wanted part))
      empty_tables
      (add_part full false part empty_tables)
add_part_outcome_example =
    add_part_outcome full (λ t. t) full-IsKernel (λ t e e' h. refl) false part empty_tables
      (λ s h. refl) (λ s h. refl)

-- A kernel that refuses everything, with the requests made and the milliseconds slept.
abbrev refusing : World (ℕ × ℕ)
refusing = record {
  execute = λ (made, slept) r. ((made + 1, slept), err "busy");
  route_get = λ k ip. ok [];
  net_state = λ k. devices;
  sleep = λ (made, slept) d. some (made, slept + d);
}

abbrev request : Request
request = delete_entry (arp 7 [] (addr4 1))

-- The counters after a sleep.
abbrev made_of : Option (ℕ × ℕ) → ℕ
made_of none = 0
made_of (some (made, slept)) = made

abbrev slept_of : Option (ℕ × ℕ) → ℕ
slept_of none = 0
slept_of (some (made, slept)) = slept

refusing_run : retry_do refusing request (0, 0) ≡ ((10, 51100), err "busy")
unfolding retry_do attempts
refusing_run = refl

-- A kernel that refuses as many requests as its state says.
abbrev busy_answer : ℕ → ℕ × Answer
busy_answer zero = (0, ok tt)
busy_answer (suc n) = (n, err "busy")

abbrev busy : World ℕ
busy = record {
  execute = λ n r. busy_answer n;
  route_get = λ n ip. ok [];
  net_state = λ n. devices;
  sleep = λ n d. some n;
}

retry_do_iff_example :
    ((retry_do busy request 2).1 ≡ ok tt)
    ↔ ((n : ℕ) × (k : ℕ) × (n ≤ 9) × Fails busy n 100 request 2 k × ((busy_answer k).1 ≡ ok tt))
retry_do_iff_example = retry_do_iff busy request 2

parse_mac-mac_to_string_example :
    parse_mac (mac_to_string (2 ∷ 0 ∷ 255 ∷ 16 ∷ 9 ∷ 160 ∷ []))
    ≡ ok (2 ∷ 0 ∷ 255 ∷ 16 ∷ 9 ∷ 160 ∷ [])
parse_mac-mac_to_string_example =
    parse_mac-mac_to_string 2 0 255 16 9 160
      (omega arith, (omega arith, (omega arith, (omega arith, (omega arith, (omega arith, tt))))))

-- A sign in front of a digit, and separators that are mixed, are accepted.
parse_mac_signs : parse_mac "+a:00-00:00:00:01" ≡ ok (10 ∷ 0 ∷ 0 ∷ 0 ∷ 0 ∷ 1 ∷ [])
unfolding parse_mac u8_from_str_radix magnitude
parse_mac_signs = refl

new_hardware_addr_run :
    new_hardware_addr (255 ∷ 1 ∷ 2 ∷ 3 ∷ 4 ∷ 5 ∷ 6 ∷ []) ≡ 254 ∷ 1 ∷ 2 ∷ 3 ∷ 4 ∷ 5 ∷ []
unfolding new_hardware_addr
new_hardware_addr_run = refl

refusing-IsMetered : IsMetered refusing (λ k. k.0) (λ k. k.1)
refusing-IsMetered = record {
  request_made = λ k r. refl;
  request_slept = λ k r. refl;
  sleep_made = λ k k' d h. ap made_of (sym h);
  sleep_slept = λ k k' d h. omega (arith, ap slept_of h);
}

retry_do_bounds_example :
    ((retry_do refusing request (0, 0)).0.0 ≤ 0 + 10)
    × ((retry_do refusing request (0, 0)).0.1 ≤ 0 + 51100)
retry_do_bounds_example =
    retry_do_bounds refusing (λ k. k.0) (λ k. k.1) refusing-IsMetered request (0, 0)
