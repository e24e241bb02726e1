-- ===== src/Routes/Batch.antt =====
-- Batches of lease events keep the lists of tracked routes without equal entries.
use text.Mathlib.Text.{◌==◌ as str_eq}
use flannel_rust.Prelude.{Bool, true, false, not, Option, none, some, List, [], ◌∷◌, if◌then◌else◌}
use flannel_rust.Lease.{EventType, added, removed, Event, Lease}
use flannel_rust.Routes.{
  AddressFamily, inet, inet6, RouteSpec, RouteMessage, Netlink, Tables, route_msg_matches,
  route_spec_equal, list_routes_by_dst, or_none, add_unless, after_delete, replace, route_add,
  remove_msg_from_route_list, remove_from_route_list, add_to_route_list,
}
use flannel_rust.Routes.Events.{
  RouteNetwork, RouteState, apply_route, apply_inet, apply_inet6, handle_event,
  handle_subnet_events,
}
use flannel_rust.Routes.Tracked.{IsUnique, remove_first-IsUnique, add_to_route_list-IsUnique}

module _ {K : Type 0} (nl : Netlink K) where
  abbrev Kept : Tables nl → Type 0
  Kept t = IsUnique t.1

  Kept-if : (b : Bool) (x y : Tables nl) → Kept x → Kept y → Kept (if b then x else y)
  Kept-if true x y h k = h
  Kept-if false x y h k = k

  add_unless-Kept :
      (l : List RouteMessage) (r : RouteSpec) (t : Tables nl) → Kept t → Kept (add_unless nl l r t)
  add_unless-Kept [] r (k, routes) u = u
  add_unless-Kept (m ∷ l) r (k, routes) u = Kept-if (route_msg_matches m r) _ _ u u

  after_delete-Kept :
      (family : AddressFamily) (r : RouteSpec) (m : RouteMessage) (d : K × Bool)
      (routes : List RouteSpec)
      → IsUnique routes
      → Kept (after_delete nl family r m d routes)
  unfolding remove_msg_from_route_list
  after_delete-Kept family r m (k, true) routes u =
      add_unless-Kept (or_none (list_routes_by_dst nl k family r)) r _
        (remove_first-IsUnique (λ x. route_msg_matches m x) routes u)
  after_delete-Kept family r m (k, false) routes u = u

  replace-Kept :
      (l : List RouteMessage) (family : AddressFamily) (r : RouteSpec) (t : Tables nl)
      → Kept t
      → Kept (replace nl l family r t)
  replace-Kept [] family r (k, routes) u =
      add_unless-Kept (or_none (list_routes_by_dst nl k family r)) r (k, routes) u
  replace-Kept (m ∷ l) family r (k, routes) u =
      Kept-if (route_msg_matches m r) _ _
        (add_unless-Kept (or_none (list_routes_by_dst nl k family r)) r (k, routes) u)
        (after_delete-Kept family r m (nl.nl_del k m) routes u)

  apply_route-Kept :
      (et : EventType) (r : RouteSpec) (family : AddressFamily) (t : Tables nl)
      → Kept t
      → Kept (apply_route nl et r family t)
  unfolding apply_route route_add remove_from_route_list
  apply_route-Kept added r family (k, routes) u =
      replace-Kept (or_none (list_routes_by_dst nl k family r)) family r
        (k, add_to_route_list routes r) (add_to_route_list-IsUnique routes r u)
  apply_route-Kept removed r family (k, routes) u =
      remove_first-IsUnique (λ x. route_spec_equal x r) routes u

  -- Both lists are without equal entries.
  abbrev pub IsWellFormed : RouteState K → Type 0
  IsWellFormed s = IsUnique s.routes × IsUnique s.v6_routes

  apply_inet6-IsWellFormed :
      (et : EventType) (on : Bool) (get : Option (Lease → RouteSpec)) (l : Lease) (s : RouteState K)
      → IsWellFormed s
      → IsWellFormed (apply_inet6 nl et on get l s)
  apply_inet6-IsWellFormed et false get l s w = w
  apply_inet6-IsWellFormed et true none l s w = w
  apply_inet6-IsWellFormed et true (some gr) l s w =
      (w.0, apply_route-Kept et (gr l) inet6 (s.kernel, s.v6_routes) w.1)

  apply_inet-IsWellFormed :
      (et : EventType) (on : Bool) (get : Option (Lease → RouteSpec))
      (then6 : RouteState K → RouteState K) (l : Lease) (s : RouteState K)
      → ((t : RouteState K) → IsWellFormed t → IsWellFormed (then6 t))
      → IsWellFormed s
      → IsWellFormed (apply_inet nl et on get then6 l s)
  apply_inet-IsWellFormed et false get then6 l s keeps w = keeps s w
  apply_inet-IsWellFormed et true none then6 l s keeps w = w
  apply_inet-IsWellFormed et true (some gr) then6 l s keeps w =
      keeps _ (apply_route-Kept et (gr l) inet (s.kernel, s.routes) w.0, w.1)

  State-if :
      (b : Bool) (x y : RouteState K)
      → IsWellFormed x
      → IsWellFormed y
      → IsWellFormed (if b then x else y)
  State-if true x y h k = h
  State-if false x y h k = k

  -- Whatever the kernel answers, a batch of lease events leaves the two lists of tracked routes without equal
  -- entries, if they were without them.
  pub handle_subnet_events-IsWellFormed :
      (nw : RouteNetwork) (batch : List Event) (s : RouteState K)
      → IsWellFormed s
      → IsWellFormed (handle_subnet_events nl nw batch s)
  unfolding handle_subnet_events handle_event
  handle_subnet_events-IsWellFormed nw [] s w = w
  handle_subnet_events-IsWellFormed nw (evt ∷ batch) s w =
      handle_subnet_events-IsWellFormed nw batch (handle_event nl nw evt s) (
        State-if (not (str_eq evt.lease.attrs.backend_type nw.backend_type)) _ _ w (
          apply_inet-IsWellFormed evt.event_type evt.lease.enable_ipv4 nw.get_route
            (apply_inet6 nl evt.event_type evt.lease.enable_ipv6 nw.get_v6_route evt.lease)
            evt.lease s
            (apply_inet6-IsWellFormed evt.event_type evt.lease.enable_ipv6 nw.get_v6_route
              evt.lease)
            w))
