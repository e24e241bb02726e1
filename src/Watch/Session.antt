-- ===== src/Watch/Session.antt =====
-- Sessions of the watch loop: what is forwarded, when the loop ends, and how long it waits.
use native.Mathlib.Omega.{pow_step}
use flannel_rust.Prelude.{
  ℕ, zero, suc, ◌*◌, ◌^◌, ◌<◌, ◌≡◌, ◌≢◌, inl, inr, refl, min, arith, Bool, true, false, not, Option,
  none, some, List, [], ◌∷◌, ◌++◌, if◌then◌else◌, All, All-append, Bool-cases, length,
}
use flannel_rust.Lease.{
  Lease, Event, LeaseWatcher, LeaseWatchResult, update, update_loop, reset, reset_loop,
  removed_events, new_watcher,
}
use flannel_rust.Watch.{
  Sender, send, reduce, Handled, handle_batch_results, handle_buffered, Signal, cancelled, received,
  closed, finished, slept, Phase, in_session, sleeping, returned, Watch, after_handled, step, run,
  watch_leases,
}

abbrev pub IsBatch : List Event → Type 0
IsBatch batch = 0 < length batch

update-own :
    (w : LeaseWatcher) (own : Lease) (es : List Event)
    → w.own_lease ≡ some own
    → (w' : LeaseWatcher) × (batch : List Event) × (update w es ≡ some (w', batch))
      × (w'.own_lease ≡ some own)
unfolding update
update-own w own es e =
    let (ls, batch) = update_loop own (w.leases, []) es in
    (record w { leases = ls }, batch, rw e refl, e)

reset-own :
    (w : LeaseWatcher) (own : Lease) (ls : List Lease)
    → w.own_lease ≡ some own
    → (w' : LeaseWatcher) × (batch : List Event) × (reset w ls ≡ some (w', batch))
      × (w'.own_lease ≡ some own)
unfolding reset
reset-own w own ls e =
    let (left, batch) = reset_loop own (w.leases, []) ls in
    (record w { leases = ls }, batch ++ removed_events left, rw e refl, e)

reduce-own :
    (w : LeaseWatcher) (own : Lease) (events : List Event) (snapshot : List Lease)
    → w.own_lease ≡ some own
    → (w' : LeaseWatcher) × (batch : List Event) × (reduce w
          (record { events = events; snapshot = snapshot })
        ≡ some (w', batch))
      × (w'.own_lease ≡ some own)
unfolding reduce
reduce-own w own [] snapshot e = reset-own w own snapshot e
reduce-own w own (x ∷ xs) snapshot e = update-own w own (x ∷ xs) e

-- What handling results gives: the watcher keeps its own lease, only batches are sent, and the loop
-- ends only where the receiver is gone.
abbrev IsHandled : Lease → Option Handled → Type 0
IsHandled own o =
    (lw : LeaseWatcher) × (receiver : Sender (List Event)) × (goes_on : Bool) × (o
      ≡ some (lw, receiver, goes_on))
    × (lw.own_lease ≡ some own)
    × All IsBatch receiver.sent
    × (goes_on ≡ false → receiver.room ≡ 0)

-- After one result: its batch is forwarded, and the rest handled by `next`.
forward-IsHandled :
    (own : Lease) (next : LeaseWatcher → Sender (List Event) → Option Handled)
    → ((lw : LeaseWatcher) (receiver : Sender (List Event))
        → lw.own_lease ≡ some own
        → All IsBatch receiver.sent
        → IsHandled own (next lw receiver))
    → (batch : List Event) (room : ℕ) (sent : List (List Event)) (lw : LeaseWatcher)
    → lw.own_lease ≡ some own
    → All IsBatch sent
    → IsHandled own (elim batch [
      | [] ↦ next lw (record { sent = sent; room = room })
      | x ∷ xs ↦ elim (send (record { sent = sent; room = room }) (x ∷ xs)) [
        | none ↦ some (lw, record { sent = sent; room = room }, false)
        | some receiver' ↦ next lw receiver'
      ]
    ])
forward-IsHandled own next again [] room sent lw e h =
    again lw (record { sent = sent; room = room }) e h
forward-IsHandled own next again (x ∷ xs) zero sent lw e h =
    (lw, record { sent = sent; room = 0 }, false, refl, e, h, λ n. refl)
forward-IsHandled own next again (x ∷ xs) (suc room) sent lw e h =
    again lw (record { sent = sent ++ ((x ∷ xs) ∷ []); room = room }) e
      (All-append IsBatch sent ((x ∷ xs) ∷ []) h (omega arith, tt))

handle_batch_results-IsHandled :
    (own : Lease) (wrs : List LeaseWatchResult) (lw : LeaseWatcher) (receiver : Sender (List Event))
    → lw.own_lease ≡ some own
    → All IsBatch receiver.sent
    → IsHandled own (handle_batch_results lw wrs receiver)
unfolding handle_batch_results
handle_batch_results-IsHandled own [] lw receiver e h = (lw, receiver, true, refl, e, h, λ n. cc)
handle_batch_results-IsHandled own (wr ∷ wrs) lw receiver e h =
    let (lw', batch, reduced, kept) = reduce-own lw own wr.events wr.snapshot e in
    rw (handle_batch_results, reduced)
      (forward-IsHandled own (λ w s. handle_batch_results w wrs s)
        (handle_batch_results-IsHandled own wrs) batch receiver.room receiver.sent lw' kept h)

handle_buffered-IsHandled :
    (own : Lease) (items : List (List LeaseWatchResult)) (lw : LeaseWatcher)
    (receiver : Sender (List Event))
    → lw.own_lease ≡ some own
    → All IsBatch receiver.sent
    → IsHandled own (handle_buffered lw items receiver)
unfolding handle_buffered
handle_buffered-IsHandled own [] lw receiver e h = (lw, receiver, true, refl, e, h, λ n. cc)
handle_buffered-IsHandled own (wrs ∷ rest) lw receiver e h =
    let (lw1, receiver1, goes_on, run, e1, h1, gone) =
      handle_batch_results-IsHandled own wrs lw receiver e h in
    elim (Bool-cases goes_on) [
      | inl on ↦
          let (lw2, receiver2, b, run2, e2, h2, gone2) =
            handle_buffered-IsHandled own rest lw1 receiver1 e1 h1 in
          (lw2, receiver2, b, rw (handle_buffered, run, on) run2, e2, h2, gone2)
      | inr off ↦
          (lw1, receiver1, false, rw (handle_buffered, run, off) refl, e1, h1, λ n. gone off)
    ]

-- The first `n` delays: they double from one second up to 30.
abbrev pub schedule : ℕ → List ℕ
schedule zero = []
schedule (suc n) = schedule n ++ (min (2 ^ n) 30 ∷ [])

next_delay : (n : ℕ) → min (min (2 ^ n) 30 * 2) 30 ≡ min (2 ^ suc n) 30
next_delay n = omega (arith, pow_step 2 n)

-- The loop after some signals.
abbrev pub IsWatching : Lease → Watch → Type 0
IsWatching own s =
    (s.watcher.own_lease ≡ some own)
    × All IsBatch s.receiver.sent
    × ((n : ℕ) × (s.delays ≡ schedule n) × (s.backoff ≡ min (2 ^ n) 30))

-- A signal other than those that end the watch: a cancellation, a clean end of the manager, and its
-- failure under a cancelled context.
abbrev pub IsFault : Signal → Type 0
IsFault cancelled = false ≡ true
IsFault (received wrs) = Unit
IsFault closed = Unit
IsFault (finished buffered failed ctx_cancelled) = (failed ≡ true) × (ctx_cancelled ≡ false)
IsFault slept = Unit

-- A returned watch has lost its receiver.
abbrev pub IsForced : Watch → Phase → Type 0
IsForced s phase = phase ≡ returned → s.receiver.room ≡ 0

abbrev Follows : Lease → Watch → Phase → Signal → Option (Watch × Phase) → Type 0
Follows own s phase signal o =
    (s' : Watch) × (phase' : Phase) × (o ≡ some (s', phase'))
    × IsWatching own s'
    × (IsFault signal → IsForced s phase → IsForced s' phase')

after_handled-Follows :
    (own : Lease) (s : Watch) (o : Option Handled) (phase next : Phase) (signal : Signal)
    → IsWatching own s
    → IsHandled own o
    → (IsFault signal → next ≢ returned)
    → Follows own s phase signal (after_handled s o next)
after_handled-Follows own s o phase next signal (_, _, wait)
      (lw, receiver, goes_on, e, kept, h, gone) fault =
    elim (Bool-cases goes_on) [
      | inl on ↦ (
        record s { watcher = lw; receiver = receiver },
        next,
        rw (e, on) refl,
        (kept, h, wait),
        λ f _ ends. absurd (fault f ends),
      )
      | inr off ↦ (
        record s { watcher = lw; receiver = receiver },
        returned,
        rw (e, off) refl,
        (kept, h, wait),
        λ _ _ _. gone off,
      )
    ]

step-Follows :
    (own : Lease) (s : Watch) (phase : Phase) (signal : Signal)
    → IsWatching own s
    → Follows own s phase signal (step s phase signal)
unfolding step
step-Follows own s in_session cancelled h = (s, returned, refl, h, λ f _ _. cc)
step-Follows own s in_session (received wrs) h =
    after_handled-Follows own s (handle_batch_results s.watcher wrs s.receiver) in_session
      in_session (received wrs) h
      (handle_batch_results-IsHandled own wrs s.watcher s.receiver h.0 h.1) (λ _ e. cc)
step-Follows own s in_session closed h = (s, sleeping, refl, h, λ _ _ e. cc)
step-Follows own s in_session (finished buffered failed ctx_cancelled) h =
    after_handled-Follows own s (handle_buffered s.watcher buffered s.receiver) in_session
      (if not failed then returned else if ctx_cancelled then returned else sleeping)
      (finished buffered failed ctx_cancelled) h
      (handle_buffered-IsHandled own buffered s.watcher s.receiver h.0 h.1)
      (λ f e. goes_on failed ctx_cancelled f e)
  where
    goes_on :
        (failed ctx_cancelled : Bool)
        → (failed ≡ true) × (ctx_cancelled ≡ false)
        → (if not failed then returned else if ctx_cancelled then returned else sleeping) ≢ returned
    goes_on failed ctx_cancelled (f, c) e = ground arith
step-Follows own s in_session slept h = (s, in_session, refl, h, λ _ _ e. cc)
step-Follows own s sleeping cancelled h = (s, returned, refl, h, λ f _ _. cc)
step-Follows own s sleeping slept (kept, batches, (n, slept_so_far, wait)) = (
  record s { backoff = min (s.backoff * 2) 30; delays = s.delays ++ (s.backoff ∷ []) },
  in_session,
  refl,
  (kept, batches, (suc n, rw (slept_so_far, wait) refl, rw wait (next_delay n))),
  λ _ _ e. cc,
)
step-Follows own s sleeping (received wrs) h = (s, sleeping, refl, h, λ _ _ e. cc)
step-Follows own s sleeping closed h = (s, sleeping, refl, h, λ _ _ e. cc)
step-Follows own s sleeping (finished buffered failed ctx_cancelled) h =
    (s, sleeping, refl, h, λ _ _ e. cc)
step-Follows own s returned signal h = (s, returned, refl, h, λ _ q e. q e)

run-IsWatching :
    (own : Lease) (signals : List Signal) (s : Watch) (phase : Phase)
    → IsWatching own s
    → (s' : Watch) × (phase' : Phase) × (run signals s phase ≡ some (s', phase'))
      × IsWatching own s'
      × (All IsFault signals → IsForced s phase → IsForced s' phase')
unfolding run
run-IsWatching own [] s phase h = (s, phase, refl, h, λ _ q. q)
run-IsWatching own (signal ∷ rest) s phase h =
    let (s1, phase1, e1, h1, forced1) = step-Follows own s phase signal h in
    let (s2, phase2, e2, h2, forced2) = run-IsWatching own rest s1 phase1 h1 in
    (s2, phase2, rw (run, e1) e2, h2, λ f q. forced2 f.1 (forced1 f.0 q))

-- Whatever the manager, the clock and the context do, the watch never panics. It forwards no empty
-- batch, and the waits between its sessions are 1, 2, 4, 8, 16 and then 30 seconds. Where no signal is a
-- cancellation, a clean end of the manager, or its failure under a cancelled context, the watch ends
-- only once the receiver is gone: a failing manager never ends it.
pub watch_leases_lem :
    (signals : List Signal) (own : Lease) (room : ℕ)
    → (s : Watch) × (phase : Phase) × (watch_leases signals own room ≡ some (s, phase))
      × IsWatching own s
      × (All IsFault signals → IsForced s phase)
unfolding watch_leases new_watcher
watch_leases_lem signals own room =
    let start : Watch = record {
      watcher = new_watcher own;
      receiver = record { sent = []; room = room };
      backoff = 1;
      delays = [];
    } in
    let (s, phase, e, h, forced) =
      run-IsWatching own signals start in_session (refl, tt, (0, refl, refl)) in
    (s, phase, e, h, λ f. forced f (λ ends. cc))
