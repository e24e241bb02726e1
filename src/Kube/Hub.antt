-- ===== src/Kube/Hub.antt =====
-- The event hub of subnet/kube/mod.rs: each subscriber gets the backlog and then every event, until its receiver
-- is dropped. `publish` waits for each receiver, so that an open one gets the event.
pub mod Delivery
pub mod Replay
use flannel_rust.Prelude.{
  ℕ, zero, suc, ◌+◌, ◌-◌, max, Bool, true, false, List, [], ◌∷◌, ◌++◌, map, filter, drop, length,
  ◌==◌, if◌then◌else◌,
}
use flannel_rust.Lease.{Event}

-- A sender: its number, whether its receiver is still there, and what it was sent.
pub record Subscriber : Type 0 where
  pub id : ℕ
  pub is_open : Bool
  pub got : List Event

pub record HubInner : Type 0 where
  pub backlog : List Event
  pub capacity : ℕ
  pub subscribers : List Subscriber
  -- the number of the next subscriber
  pub next_id : ℕ

abbrev pub new_hub : ℕ → HubInner
new_hub capacity = record { backlog = []; capacity = max capacity 1; subscribers = []; next_id = 0 }

-- `pop_front` while the backlog is longer than the capacity.
abbrev pub trimmed : ℕ → List Event → List Event
trimmed capacity backlog = drop (length backlog - capacity) backlog

abbrev pub send_to : Event → Subscriber → Subscriber
send_to e s = record s { got = s.got ++ (e ∷ []) }

-- An open receiver gets the event; a closed one is retired.
abbrev pub send_all : Event → List Subscriber → List Subscriber
send_all e [] = []
send_all e (s ∷ subscribers) =
    if s.is_open then send_to e s ∷ send_all e subscribers else send_all e subscribers

unfoldable pub publish : Event → HubInner → HubInner
publish e hub = record hub {
  backlog = trimmed hub.capacity (hub.backlog ++ (e ∷ []));
  subscribers = send_all e hub.subscribers;
}

unfoldable pub subscribe : HubInner → HubInner
subscribe hub = record hub {
  subscribers =
      hub.subscribers ++ (record { id = hub.next_id; is_open = true; got = hub.backlog } ∷ []);
  next_id = suc hub.next_id;
}

-- What happens to a hub; a receiver may be dropped at any time.
pub data Action : Type 0 where
  published : Event → Action
  subscribed : Action
  receiver_dropped : ℕ → Action

abbrev pub close : ℕ → List Subscriber → List Subscriber
close id [] = []
close id (s ∷ subscribers) =
    (if s.id == id then record s { is_open = false } else s) ∷ close id subscribers

unfoldable pub act : Action → HubInner → HubInner
act (published e) hub = publish e hub
act subscribed hub = subscribe hub
act (receiver_dropped id) hub = record hub { subscribers = close id hub.subscribers }

unfoldable pub run_hub : List Action → HubInner → HubInner
run_hub [] hub = hub
run_hub (a ∷ actions) hub = run_hub actions (act a hub)
