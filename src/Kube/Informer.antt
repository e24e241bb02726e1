-- ===== src/Kube/Informer.antt =====
-- crates/flannel-core/src/subnet/kube/informer.rs: the store of nodes, the deltas of a list, and the watch.
-- What the API server, the resync timer and the cancellation do is a list of signals. The events that the
-- handlers hand on are collected in `events`. The store is a dictionary by node name.
pub mod Store
pub mod Relist
use Prim.Native.String.{String}
use text.Mathlib.Text.{◌==◌ as str_eq}
use flannel_rust.Prelude.{
  ℕ, Bool, true, false, Option, none, some, List, [], ◌∷◌, ◌++◌, ◌&&◌, any, if◌then◌else◌,
}
use flannel_rust.Prelude.Dict
use flannel_rust.Prelude.Dict.{lookup, insert}
use flannel_rust.Lease.{EventType, added, removed, Event}
use flannel_rust.Kube.{Node, Annotations, Parsers}
use flannel_rust.Kube.Events.{handle_add_lease_event, handle_update_lease_event}

abbrev pub Nodes : Type 0
Nodes = List (String × Node)

pub data WatchEventType : Type 0 where
  watch_added watch_modified watch_deleted watch_bookmark watch_error : WatchEventType

pub record WatchEvent : Type 0 where
  pub event_type : WatchEventType
  pub object : Node

abbrev pub name_of : Node → String
name_of node = node.metadata.name

-- `NodeStore::put`, without the previous node, which is read before.
abbrev pub put : Nodes → Node → Nodes
put store node = insert store (name_of node) node

-- The store that `NodeStore::replace_all` leaves; the previous one is what the caller still has.
unfoldable pub store_of : Nodes → List Node → Nodes
store_of store [] = store
store_of store (node ∷ items) = store_of (put store node) items

unfoldable pub replace_all : List Node → Nodes
unfolding store_of
replace_all items = store_of [] items

-- The names of a list that have been seen.
abbrev pub seen : List Node → String → Bool
seen items name = any (λ node. str_eq (name_of node) name) items

abbrev pub emit : Option Event → List Event
emit none = []
emit (some e) = e ∷ []

pub record InformerCtx : Type 0 where
  pub parsers : Parsers
  pub annotations : Annotations
  pub enable_ipv4 : Bool
  pub enable_ipv6 : Bool

pub record Informer : Type 0 where
  pub store : Nodes
  pub synced : Bool
  pub resource_version : Option String
  pub events : List Event

pub data WatchEnd : Type 0 where
  end_cancelled end_ended end_gone end_failed : WatchEnd

-- Whether the informer lists again after a watch.
abbrev pub goes_on : Option WatchEnd → Bool
goes_on none = false
goes_on (some end_cancelled) = false
goes_on (some end_ended) = true
goes_on (some end_gone) = true
goes_on (some end_failed) = true

-- What the `select!` of the watch takes.
pub data Signal : Type 0 where
  cancelled stream_ended gone failed resync : Signal
  frame : WatchEvent → Signal

-- What `select!` and the sleeps of the informer's loop give in a round: the cancellation; a LIST that
-- fails, and whether the sleep ends; or a LIST, its version, the signals of its watch, and whether the
-- sleep after the watch ends.
pub data Round : Type 0 where
  stop : Round
  list_failed : Bool → Round
  listed : List Node → Option String → List Signal → Bool → Round

module _ (c : InformerCtx) where
  abbrev pub on_add : EventType → Node → List Event
  on_add et node =
      emit (handle_add_lease_event c.parsers c.annotations c.enable_ipv4 c.enable_ipv6 et node)

  abbrev pub on_update : Node → Node → List Event
  on_update old new =
      emit (handle_update_lease_event c.parsers c.annotations c.enable_ipv4 c.enable_ipv6 old new)

  -- A node of the list, against what was known of it.
  abbrev pub on_listed : Option Node → Node → List Event
  on_listed none node = on_add added node
  on_listed (some prev) node = on_update prev node

  unfoldable pub listed_events : Nodes → List Node → List Event
  listed_events old [] = []
  listed_events old (node ∷ items) =
      on_listed (lookup old (name_of node)) node ++ listed_events old items

  abbrev pub unless_seen : Bool → Node → List Event
  unless_seen true node = []
  unless_seen false node = on_add removed node

  -- The known nodes whose names are not seen in the list.
  unfoldable pub missing_events : Nodes → List Node → List Event
  missing_events [] items = []
  missing_events ((name, node) ∷ old) items =
      unless_seen (seen items name) node ++ missing_events old items

  unfoldable pub reconcile_relist : Nodes → List Node → List Event
  reconcile_relist old items = listed_events old items ++ missing_events old items

  -- A LIST that succeeds.
  unfoldable pub relist : List Node → Option String → Informer → Informer
  relist items version s = record {
    store = replace_all items;
    synced = true;
    resource_version = version;
    events = s.events ++ reconcile_relist s.store items;
  }

  abbrev pub or_self : Option Node → Node → Node
  or_self none node = node
  or_self (some old) node = old

  unfoldable pub dispatch : WatchEventType → Node → Informer → Informer
  dispatch watch_added node s = record s {
    store = put s.store node;
    events = s.events ++ on_listed (lookup s.store (name_of node)) node;
  }
  dispatch watch_modified node s = record s {
    store = put s.store node;
    events = s.events ++ on_update (or_self (lookup s.store (name_of node)) node) node;
  }
  dispatch watch_bookmark node s = s
  dispatch watch_deleted node s = record s {
    store = Dict.delete s.store (name_of node);
    events = s.events ++ on_add removed node;
  }
  dispatch watch_error node s = s

  abbrev pub or_version : Option String → Option String → Option String
  or_version none rv = rv
  or_version (some new_rv) rv = some new_rv

  abbrev pub resync_events : Nodes → List Event
  resync_events [] = []
  resync_events ((name, node) ∷ store) = on_update node node ++ resync_events store

  -- One watch session: its end and what is left; `none` while it goes on.
  unfoldable pub run_watch : List Signal → Informer → Option WatchEnd × Informer
  run_watch [] s = (none, s)
  run_watch (cancelled ∷ signals) s = (some end_cancelled, s)
  run_watch (stream_ended ∷ signals) s = (some end_ended, s)
  run_watch (gone ∷ signals) s = (some end_gone, s)
  run_watch (failed ∷ signals) s = (some end_failed, s)
  run_watch (resync ∷ signals) s =
      run_watch signals (record s { events = s.events ++ resync_events s.store })
  run_watch (frame e ∷ signals) s =
      let version = or_version e.object.metadata.resource_version s.resource_version in
      run_watch signals (dispatch e.event_type e.object (record s { resource_version = version }))

  unfoldable pub run_node_informer : List Round → Informer → Informer
  run_node_informer [] s = s
  run_node_informer (stop ∷ rounds) s = s
  run_node_informer (list_failed woke ∷ rounds) s =
      let rest = run_node_informer rounds s in if woke then rest else s
  run_node_informer (listed items version signals woke ∷ rounds) s =
      let session = run_watch signals (relist items version s) in
      let rest = run_node_informer rounds session.1 in
      if goes_on session.0 && woke then rest else session.1
