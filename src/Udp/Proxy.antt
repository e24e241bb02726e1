-- ===== src/Udp/Proxy.antt =====
-- The loop of crates/flannel-core/src/backend/udp/proxy.rs. What the kernel hands over, by poll and by
-- the reads, is a parameter; what the proxy sends is a list of outputs. `none` is a panic.
pub mod Safety
use flannel_rust.Prelude.{
  ℕ, ◌≡◌, ◌≤◌, ◌<◌, refl, arith, Bool, true, false, ◌||◌, Option, none, some, List, [], ◌∷◌, ◌++◌,
  ltb, leb, if◌then◌else◌, length, get_or, Bool-cases,
}
use flannel_rust.Udp.Packet.{le32, within, decrement_ttl, build_net_unreachable}
use flannel_rust.Udp.Routes.{Received, failed, got, RouteTable, find_route, process_cmd}

pub data Output : Type 0 where
  -- `sock_send_packet`: the packet, the address and the port of the next hop
  to_hop : List ℕ → ℕ → ℕ → Output
  -- a write to the tun
  to_tun : List ℕ → Output

-- `tun_recv_packet` and `sock_recv_packet`: nothing on an error or a short read.
recv_packet : Received → Option (List ℕ)
recv_packet failed = none
recv_packet (got pkt) = if ltb (length pkt) 20 then none else some pkt

abbrev to_list : Option (List ℕ) → List Output
to_list none = []
to_list (some pkt) = to_tun pkt ∷ []

-- Whether there was activity, the route table, and the outputs.
abbrev pub Step : Type 0
Step = Bool × RouteTable × List Output

-- A discarded packet is not sent.
abbrev forward : Option (Bool × List ℕ) → (List ℕ → Output) → RouteTable → Option Step
forward none send routes = none
forward (some (false, pkt)) send routes = some (true, routes, [])
forward (some (true, pkt)) send routes = some (true, routes, send pkt ∷ [])

-- `send_net_unreachable`
abbrev pub send_reply : Option (Option (List ℕ)) → RouteTable → Option Step
send_reply none routes = none
send_reply (some reply) routes = some (true, routes, to_list reply)

abbrev pub answer : List ℕ → ℕ → Option (RouteTable × Option (ℕ × ℕ)) → Option Step
answer pkt tun_ip none = none
answer pkt tun_ip (some (routes, none)) = send_reply (build_net_unreachable pkt tun_ip) routes
answer pkt tun_ip (some (routes, some (hop_ip, hop_port))) =
    forward (decrement_ttl pkt) (λ p. to_hop p hop_ip hop_port) routes

abbrev pub daddr : List ℕ → ℕ
daddr pkt = le32 (get_or pkt 16 0) (get_or pkt 17 0) (get_or pkt 18 0) (get_or pkt 19 0)

-- The rest of tun_to_udp, for the packet that was read.
unfoldable pub route_packet : List ℕ → ℕ → RouteTable → Option Step
route_packet pkt tun_ip routes = within 20 pkt (answer pkt tun_ip (find_route routes (daddr pkt)))

unfoldable pub tun_to_udp : Received → ℕ → RouteTable → Option Step
unfolding recv_packet route_packet
tun_to_udp r tun_ip routes = elim (recv_packet r) [
  | none ↦ some (false, routes, [])
  | some pkt ↦ route_packet pkt tun_ip routes
]

unfoldable pub udp_to_tun : Received → RouteTable → Option Step
unfolding recv_packet
udp_to_tun r routes = elim (recv_packet r) [
  | none ↦ some (false, routes, [])
  | some pkt ↦ forward (decrement_ttl pkt) to_tun routes
]

-- The state of the loop, and what has been sent.
pub record Proxy : Type 0 where
  pub routes : RouteTable
  pub exit_flag : Bool
  pub sent : List Output

-- What the two reads of one round of the inner loop give.
pub record Round : Type 0 where
  pub tun : Received
  pub sock : Received

abbrev and_then_udp : Option Step → Received → Option Step
and_then_udp none r = none
and_then_udp (some (active, routes, out)) r = elim (udp_to_tun r routes) [
  | none ↦ none
  | some (active', routes', out') ↦ some (active || active', routes', out ++ out')
]

unfoldable pub round : Round → ℕ → RouteTable → Option Step
unfolding tun_to_udp udp_to_tun
round r tun_ip routes = and_then_udp (tun_to_udp r.tun tun_ip routes) r.sock

-- The inner loop ends at the first round without activity.
unfoldable pub drain : List Round → ℕ → RouteTable → List Output → Option (RouteTable × List Output)
unfolding round
drain [] tun_ip routes sent = some (routes, sent)
drain (r ∷ rs) tun_ip routes sent = elim (round r tun_ip routes) [
  | none ↦ none
  | some (false, routes', out) ↦ some (routes', sent ++ out)
  | some (true, routes', out) ↦ drain rs tun_ip routes' (sent ++ out)
]

-- A return of `poll`: interrupted, another error, or the descriptors that are ready: the control socket
-- with what its read gives, and the packet descriptors with the rounds that follow.
pub data Poll : Type 0 where
  interrupted poll_failed : Poll
  ready : Option Received → Option (List Round) → Poll

abbrev control : Option Received → RouteTable → Bool → RouteTable × Bool
control none routes exit_flag = (routes, exit_flag)
control (some r) routes exit_flag = process_cmd r routes exit_flag

-- One pass of the outer loop; the flag tells whether the loop returned.
unfoldable pub pass : Poll → ℕ → Proxy → Option (Proxy × Bool)
unfolding drain process_cmd
pass interrupted tun_ip s = some (s, false)
pass poll_failed tun_ip s = some (s, true)
pass (ready ctl none) tun_ip s =
    let (routes, exit_flag) = control ctl s.routes s.exit_flag in
    some (record { routes = routes; exit_flag = exit_flag; sent = s.sent }, false)
pass (ready ctl (some rounds)) tun_ip s =
    let (routes, exit_flag) = control ctl s.routes s.exit_flag in
    elim (drain rounds tun_ip routes s.sent) [
      | none ↦ none
      | some (routes', sent) ↦
          some (record { routes = routes'; exit_flag = exit_flag; sent = sent }, false)
    ]

-- The outer loop, over the returns of `poll`.
unfoldable pub run : List Poll → ℕ → Proxy → Option Proxy
unfolding pass
run [] tun_ip s = some s
run (p ∷ ps) tun_ip s = if s.exit_flag then some s else elim (pass p tun_ip s) [
  | none ↦ none
  | some (s', true) ↦ some s'
  | some (s', false) ↦ run ps tun_ip s'
]

unfoldable pub run_proxy : List Poll → ℕ → ℕ → Option Proxy
unfolding run
run_proxy polls tun_ip tun_mtu =
    let start : Proxy = record { routes = record { entries = [] }; exit_flag = false; sent = [] } in
    if leb tun_mtu 0 then some start else run polls tun_ip start
