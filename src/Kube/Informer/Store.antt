-- ===== src/Kube/Informer/Store.antt =====
-- The store as a function of names: what it says of a node is what the latest frame of that node said.
use Prim.Native.String.{String}
use text.Mathlib.Text.{◌==◌ as str_eq}
use flannel_rust.Prelude.{
  ◌≡◌, refl, ap, ◌∙◌, arith, Option, none, some, List, [], ◌∷◌, if◌then◌else◌,
}
use flannel_rust.Prelude.Dict.{lookup, lookup-insert, lookup-delete}
use flannel_rust.Kube.{Node}
use flannel_rust.Kube.Informer.{
  Nodes, name_of, put, store_of, replace_all, WatchEventType, watch_added, watch_modified,
  watch_deleted, watch_bookmark, watch_error, InformerCtx, Informer, Signal, cancelled,
  stream_ended, gone, failed, resync, frame, dispatch, run_watch, relist,
}

-- What a frame makes of the node of a name.
abbrev pub told : WatchEventType → Node → Option Node → Option Node
told watch_added node known = some node
told watch_modified node known = some node
told watch_deleted node known = none
told watch_bookmark node known = known
told watch_error node known = known

-- The node of a name by the frames of a session.
abbrev pub latest : String → List Signal → Option Node → Option Node
latest name [] known = known
latest name (cancelled ∷ signals) known = known
latest name (stream_ended ∷ signals) known = known
latest name (gone ∷ signals) known = known
latest name (failed ∷ signals) known = known
latest name (resync ∷ signals) known = latest name signals known
latest name (frame e ∷ signals) known =
    latest name signals
      (if str_eq (name_of e.object) name then told e.event_type e.object known else known)

-- The last of the listed nodes of a name.
abbrev pub last_named : String → List Node → Option Node → Option Node
last_named name [] known = known
last_named name (node ∷ items) known =
    last_named name items (if str_eq (name_of node) name then some node else known)

lookup-store_of :
    (items : List Node) (store : Nodes) (name : String)
    → lookup (store_of store items) name ≡ last_named name items (lookup store name)
unfolding store_of
lookup-store_of [] store name = refl
lookup-store_of (node ∷ items) store name =
    rw (lookup-store_of items (put store node) name, lookup-insert store (name_of node) name node)
      refl

module _ (c : InformerCtx) where
  lookup-dispatch :
      (t : WatchEventType) (node : Node) (s : Informer) (name : String)
      → lookup (dispatch c t node s).store name ≡ (
          if str_eq (name_of node) name
          then told t node (lookup s.store name)
          else lookup s.store name)
  unfolding dispatch
  lookup-dispatch watch_added node s name = lookup-insert s.store (name_of node) name node
  lookup-dispatch watch_modified node s name = lookup-insert s.store (name_of node) name node
  lookup-dispatch watch_deleted node s name = lookup-delete s.store (name_of node) name
  lookup-dispatch watch_bookmark node s name = ground arith
  lookup-dispatch watch_error node s name = ground arith

  lookup-run_watch :
      (signals : List Signal) (s : Informer) (name : String)
      → lookup (run_watch c signals s).1.store name ≡ latest name signals (lookup s.store name)
  unfolding run_watch
  lookup-run_watch [] s name = refl
  lookup-run_watch (cancelled ∷ signals) s name = refl
  lookup-run_watch (stream_ended ∷ signals) s name = refl
  lookup-run_watch (gone ∷ signals) s name = refl
  lookup-run_watch (failed ∷ signals) s name = refl
  lookup-run_watch (resync ∷ signals) s name = lookup-run_watch signals _ name
  lookup-run_watch (frame e ∷ signals) s name =
      rw (lookup-run_watch signals _ name, lookup-dispatch e.event_type e.object _ name) refl

  -- After a LIST and a watch session, the store has under each name the node of the latest frame with that
  -- name before the session's end, nothing if that frame deletes it, and without such a frame the last
  -- of the listed nodes with that name; what was known before the LIST is gone.
  pub session-lookup :
      (items : List Node) (version : Option String) (signals : List Signal) (s : Informer)
      (name : String)
      → lookup (run_watch c signals (relist c items version s)).1.store name
        ≡ latest name signals (last_named name items none)
  unfolding relist replace_all lookup
  session-lookup items version signals s name =
      lookup-run_watch signals (relist c items version s) name
      ∙ ap (latest name signals) (lookup-store_of items [] name)
