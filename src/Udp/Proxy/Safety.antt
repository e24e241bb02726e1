-- ===== src/Udp/Proxy/Safety.antt =====
-- The proxy never panics, and its route table never holds two entries of one destination.
use flannel_rust.Prelude.{◌≡◌, Bool, Option, some, List}
use flannel_rust.Udp.Routes.{RouteTable}
use flannel_rust.Udp.Routes.Table.{IsKeyed}
use flannel_rust.Udp.Proxy.{Output, Step, Proxy}

-- A step that goes through and leaves the table keyed.
abbrev IsSafe : Option Step → Type 0
IsSafe o =
    (a : Bool) × (routes : RouteTable) × (out : List Output) × (o ≡ some (a, routes, out))
    × IsKeyed routes

abbrev Ends : Option Proxy → Type 0
Ends o = (s' : Proxy) × (o ≡ some s') × IsKeyed s'.routes
