-- ===== src/Routes/Events.antt =====
-- handle_subnet_events of route_network.rs. GetRoute is a function of the lease.
use Prim.Native.String.{String}
use text.Mathlib.Text.{◌==◌ as str_eq}
use flannel_rust.Prelude.{Bool, true, false, not, Option, none, some, List, [], ◌∷◌, if◌then◌else◌}
use flannel_rust.Lease.{EventType, added, removed, Event, Lease}
use flannel_rust.Routes.{
  AddressFamily, inet, inet6, RouteSpec, Netlink, Tables, to_message, remove_from_route_list,
  route_add,
}

pub record RouteNetwork : Type 0 where
  pub backend_type : String
  pub get_route : Option (Lease → RouteSpec)
  pub get_v6_route : Option (Lease → RouteSpec)

-- The kernel and the two lists of tracked routes.
pub record RouteState (K : Type 0) : Type 0 where
  pub kernel : K
  pub routes : List RouteSpec
  pub v6_routes : List RouteSpec

module _ {K : Type 0} (nl : Netlink K) where
  -- What an event does to the routes of a family.
  unfoldable pub apply_route : EventType → RouteSpec → AddressFamily → Tables nl → Tables nl
  apply_route added route family t = route_add nl route family t
  apply_route removed route family (k, routes) =
      ((nl.nl_del k (to_message route)).0, remove_from_route_list routes route)

  abbrev pub set_inet : Tables nl → RouteState K → RouteState K
  set_inet (k, routes) s = record s { kernel = k; routes = routes }

  abbrev pub set_inet6 : Tables nl → RouteState K → RouteState K
  set_inet6 (k, routes) s = record s { kernel = k; v6_routes = routes }

  -- The IPv6 part of an event.
  abbrev pub apply_inet6 :
      EventType → Bool → Option (Lease → RouteSpec) → Lease → RouteState K → RouteState K
  apply_inet6 et false get lease s = s
  apply_inet6 et true none lease s = s
  apply_inet6 et true (some gr6) lease s =
      set_inet6 (apply_route et (gr6 lease) inet6 (s.kernel, s.v6_routes)) s

  -- The IPv4 part, and then the IPv6 part; without a GetRoute for IPv4 the event ends.
  abbrev pub apply_inet :
      EventType
      → Bool
      → Option (Lease → RouteSpec)
      → (RouteState K → RouteState K)
      → Lease
      → RouteState K
      → RouteState K
  apply_inet et false get then6 lease s = then6 s
  apply_inet et true none then6 lease s = s
  apply_inet et true (some gr) then6 lease s =
      then6 (set_inet (apply_route et (gr lease) inet (s.kernel, s.routes)) s)

  unfoldable pub handle_event : RouteNetwork → Event → RouteState K → RouteState K
  handle_event nw evt s =
      if not (str_eq evt.lease.attrs.backend_type nw.backend_type)
      then s
      else apply_inet evt.event_type evt.lease.enable_ipv4 nw.get_route
          (apply_inet6 evt.event_type evt.lease.enable_ipv6 nw.get_v6_route evt.lease) evt.lease s

  unfoldable pub handle_subnet_events : RouteNetwork → List Event → RouteState K → RouteState K
  handle_subnet_events nw [] s = s
  handle_subnet_events nw (evt ∷ batch) s = handle_subnet_events nw batch (handle_event nw evt s)
