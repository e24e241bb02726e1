-- ===== src/Tests/Hub.antt =====
-- Runs of the event hub of crates/flannel-core/src/subnet/kube/mod.rs.
use flannel_rust.Prelude.{max, ◌≡◌, refl, some, List, [], ◌∷◌, ◌++◌}
use flannel_rust.Lease.{added, removed, event}
use flannel_rust.Kube.Hub.{
  Action, published, subscribed, receiver_dropped, new_hub, trimmed, subscribe, run_hub, act,
  publish,
}
use flannel_rust.Kube.Hub.Delivery.{got_of, events_of}
use flannel_rust.Kube.Hub.Replay.{run_hub-replay}
use flannel_rust.Tests.Kube.{lease}

abbrev before : List Action
before =
    published (event added lease)
    ∷ published (event removed lease)
    ∷ published (event added lease)
    ∷ []

abbrev after : List Action
after = published (event removed lease) ∷ subscribed ∷ receiver_dropped 1 ∷ []

run_hub-replay_example :
    got_of
      (run_hub before (new_hub 2)).next_id
      (run_hub after (subscribe (run_hub before (new_hub 2)))).subscribers
    ≡ some (trimmed (max 2 1) (events_of before) ++ events_of after)
unfolding run_hub act publish
run_hub-replay_example = run_hub-replay 2 before after (tt, (tt, (refl, tt)))
