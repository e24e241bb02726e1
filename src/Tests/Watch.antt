-- ===== src/Tests/Watch.antt =====
-- Runs of crates/flannel-core/src/subnet/watch.rs.
use flannel_rust.Prelude.{ℕ, ◌+◌, ◌*◌, ◌≡◌, true, false, some, List, [], ◌∷◌, All}
use flannel_rust.Prelude.Int.{pos}
use flannel_rust.Ip.V6
use flannel_rust.Lease.{Lease, LeaseWatchResult, default_attrs, removed, event}
use flannel_rust.Watch.{Signal, received, closed, finished, slept, Phase, Watch, watch_leases}
use flannel_rust.Watch.Session.{IsWatching, IsFault, IsForced, watch_leases_lem}

-- A lease of an IPv4 cluster, for the `i`-th subnet of 24 bits of 10.5.0.0/16.
abbrev lease : ℕ → Lease
lease i = record {
  enable_ipv4 = true;
  enable_ipv6 = false;
  subnet = record { ip = 0x0a05_0000 + 256 * i; prefix_len = 24 };
  ipv6_subnet = V6.default_net;
  attrs = default_attrs;
  expiration = 0;
  asof = pos 0;
}

abbrev results : List LeaseWatchResult
results =
    (record { events = []; snapshot = lease 1 ∷ lease 2 ∷ [] })
    ∷ (record { events = event removed (lease 2) ∷ []; snapshot = [] })
    ∷ (record { events = []; snapshot = [] })
    ∷ []

-- Two failed sessions, the second after some results.
abbrev signals : List Signal
signals = closed ∷ slept ∷ received results ∷ finished (results ∷ []) true false ∷ slept ∷ []

watch_leases_lem_example :
    (s : Watch) × (phase : Phase) × (watch_leases signals (lease 1) 10 ≡ some (s, phase))
    × IsWatching (lease 1) s
    × (All IsFault signals → IsForced s phase)
watch_leases_lem_example = watch_leases_lem signals (lease 1) 10
