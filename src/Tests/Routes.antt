-- ===== src/Tests/Routes.antt =====
-- Runs of the tracked routes over a kernel that is the list of its routes.
use flannel_rust.Prelude.{◌≡◌, refl, arith, true, false, none, some, List, [], ◌∷◌, any}
use flannel_rust.Lease.{added, removed, event}
use flannel_rust.Routes.{
  addr4, inet, RouteSpec, RouteMessage, Netlink, message_of, is_kernel_route, route_add,
}
use flannel_rust.Routes.Events.{RouteNetwork, RouteState, handle_subnet_events}
use flannel_rust.Routes.Batch.{IsWellFormed, handle_subnet_events-IsWellFormed}
use flannel_rust.Routes.Added.{route_add-held}
use flannel_rust.Tests.RouteTable.{exclusive, exclusive-IsExclusive}
use flannel_rust.Tests.Kube.{lease}

abbrev route : RouteSpec
route = record {
  dst = addr4 0x0a05_0100;
  prefix_len = 24;
  gateway = addr4 0x0a00_0001;
  link_index = 2;
  family = inet;
  onlink = false;
}

-- The same destination over another gateway.
abbrev stale : RouteSpec
stale = record route { gateway = addr4 0x0a00_0002 }

abbrev table : Netlink (List RouteMessage)
table = record { nl_dump = λ k. some k; nl_add = λ k m. (m ∷ k, true); nl_del = λ k m. (k, true) }

abbrev hostgw : RouteNetwork
hostgw = record { backend_type = "vxlan"; get_route = some (λ l. route); get_v6_route = none }

abbrev start : RouteState (List RouteMessage)
start = record { kernel = []; routes = stale ∷ []; v6_routes = [] }

handle_subnet_events-IsWellFormed_example : IsWellFormed table (
    handle_subnet_events table hostgw
      (event added lease ∷ event removed lease ∷ event added lease ∷ [])
      start)
handle_subnet_events-IsWellFormed_example =
    handle_subnet_events-IsWellFormed table hostgw
      (event added lease ∷ event removed lease ∷ event added lease ∷ []) start ((refl, tt), tt)

route_add-held_example :
    any (is_kernel_route route) (route_add exclusive route inet (message_of inet stale ∷ [], [])).0
    ≡ true
route_add-held_example =
    route_add-held route (refl, refl) exclusive (λ k. k) exclusive-IsExclusive
      (message_of inet stale ∷ []) [] (omega arith)
