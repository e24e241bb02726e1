-- ===== src/Tests/Lease.antt =====
-- Runs of crates/flannel-core/src/lease/mod.rs.
use mathlib.Core.List.{Memᴰ}
use flannel_rust.Prelude.{ℕ, ◌+◌, ◌*◌, ◌≡◌, refl, true, false, some, List, [], ◌∷◌, ◌++◌, map, All}
use flannel_rust.Prelude.Int.{pos}
use flannel_rust.Ip.V6
use flannel_rust.Lease.{
  Lease, Event, LeaseWatcher, default_attrs, added, removed, event, update, reset, same_subnet,
}
use flannel_rust.Lease.Key.{same}
use flannel_rust.Lease.Stored.{IsDistinct, Uniform}
use flannel_rust.Lease.Reset.{new_leases, gone_leases, reset_lem, reset_own_removed}
use flannel_rust.Lease.Update.{lookup, effects, update_lem}

-- A lease of an IPv4 cluster, for the `i`-th subnet of 24 bits of 10.5.0.0/16.
abbrev lease : ℕ → Lease
lease i = record {
  enable_ipv4 = true;
  enable_ipv6 = false;
  subnet = record { ip = 0x0a05_0000 + 256 * i; prefix_len = 24 };
  ipv6_subnet = V6.default_net;
  attrs = default_attrs;
  expiration = 0;
  asof = pos 0;
}

abbrev own : Lease
own = lease 1

abbrev watcher : LeaseWatcher
watcher = record { own_lease = some own; leases = lease 1 ∷ lease 2 ∷ lease 3 ∷ [] }

abbrev snapshot : List Lease
snapshot = lease 1 ∷ lease 3 ∷ lease 4 ∷ []

abbrev batch : List Event
batch = event removed (lease 2) ∷ event added (lease 5) ∷ event removed (lease 1) ∷ []

snapshot-Uniform : Uniform true false snapshot
snapshot-Uniform = ((refl, refl), ((refl, refl), ((refl, refl), tt)))

stored-Uniform : Uniform true false watcher.leases
stored-Uniform = ((refl, refl), ((refl, refl), ((refl, refl), tt)))

snapshot-IsDistinct : IsDistinct true false snapshot
unfolding same_subnet
snapshot-IsDistinct = (refl, (refl, (refl, tt)))

stored-IsDistinct : IsDistinct true false watcher.leases
unfolding same_subnet
stored-IsDistinct = (refl, (refl, (refl, tt)))

reset_lem_example :
    reset watcher snapshot
    ≡ some (
      record { own_lease = some own; leases = snapshot },
      map (event added) (new_leases true false own watcher.leases snapshot)
          ++ map (event removed) (gone_leases true false own watcher.leases snapshot),
    )
reset_lem_example =
    reset_lem true false watcher own snapshot refl snapshot-Uniform snapshot-IsDistinct
      stored-Uniform stored-IsDistinct

reset_run :
    reset watcher snapshot
    ≡ some (
      record { own_lease = some own; leases = snapshot },
      event added (lease 4) ∷ event removed (lease 1) ∷ event removed (lease 2) ∷ [],
    )
unfolding reset same_subnet
reset_run = refl

own-same : same true false own (lease 1) ≡ true
unfolding same_subnet
own-same = refl

reset_own_removed_example :
    (events : List Event) × (reset watcher snapshot
      ≡ some (record { own_lease = some own; leases = snapshot }, events))
    × Memᴰ (event removed (lease 1)) events
reset_own_removed_example =
    reset_own_removed true false watcher own (lease 1) snapshot refl snapshot-Uniform
      snapshot-IsDistinct stored-Uniform stored-IsDistinct (Memᴰ.head refl) own-same

update_lem_example :
    (w' : LeaseWatcher) × (out : List Event) × (update watcher batch ≡ some (w', out))
    × (w'.own_lease ≡ some own)
    × Uniform true false w'.leases
    × IsDistinct true false w'.leases
    × All (λ x. same true false own x.lease ≡ false) out
    × ((q : Lease)
        → lookup true false w'.leases q
          ≡ effects true false own q (lookup true false watcher.leases q) batch)
update_lem_example =
    update_lem true false watcher own batch refl ((refl, refl), ((refl, refl), ((refl, refl), tt)))
      stored-Uniform stored-IsDistinct
