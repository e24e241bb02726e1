-- ===== src/Watch.antt =====
-- crates/flannel-core/src/subnet/watch.rs: the watch loop over the lease watcher. What the manager, the
-- clock and the cancellation do is a parameter, a list of signals. `none` is the panic of the watcher.
pub mod Single
pub mod Session
use flannel_rust.Prelude.{
  ℕ, zero, suc, ◌*◌, min, Bool, true, false, not, ◌&&◌, Option, none, some, List, [], ◌∷◌, ◌++◌,
  if◌then◌else◌,
}
use flannel_rust.Lease.{
  Lease, Event, LeaseWatcher, LeaseWatchResult, added, event, update, reset, new_watcher,
}

-- The sender of a channel: what has been sent, and how many sends the receiver still takes before it
-- is dropped.
pub record Sender {ℓ} (A : Type ℓ) : Type ℓ where
  pub sent : List A
  pub room : ℕ

-- `send`: nothing if the receiver is gone.
abbrev pub send {ℓ} : {A : Type ℓ} → Sender A → A → Option (Sender A)
send s x = elim s.room [
  | zero ↦ none
  | suc n ↦ some (record { sent = s.sent ++ (x ∷ []); room = n })
]

unfoldable pub reduce : LeaseWatcher → LeaseWatchResult → Option (LeaseWatcher × List Event)
reduce lw wr = elim wr.events [ [] ↦ reset lw wr.snapshot | e ∷ es ↦ update lw (e ∷ es) ]

-- Whether the loop goes on.
abbrev pub Handled : Type 0
Handled = LeaseWatcher × Sender (List Event) × Bool

unfoldable pub handle_batch_results :
    LeaseWatcher → List LeaseWatchResult → Sender (List Event) → Option Handled
unfolding reduce
handle_batch_results lw [] receiver = some (lw, receiver, true)
handle_batch_results lw (wr ∷ wrs) receiver = elim (reduce lw wr) [
  | none ↦ none
  | some (lw', []) ↦ handle_batch_results lw' wrs receiver
  | some (lw', e ∷ es) ↦ elim (send receiver (e ∷ es)) [
    | none ↦ some (lw', receiver, false)
    | some receiver' ↦ handle_batch_results lw' wrs receiver'
  ]
]

-- The batches that the manager had buffered when it ended.
unfoldable pub handle_buffered :
    LeaseWatcher → List (List LeaseWatchResult) → Sender (List Event) → Option Handled
unfolding handle_batch_results
handle_buffered lw [] receiver = some (lw, receiver, true)
handle_buffered lw (wrs ∷ rest) receiver = elim (handle_batch_results lw wrs receiver) [
  | none ↦ none
  | some (lw', receiver', false) ↦ some (lw', receiver', false)
  | some (lw', receiver', true) ↦ handle_buffered lw' rest receiver'
]

-- What a `select!` of the loop takes: the cancellation, an item of the channel, its closing, the end of
-- the manager with what it buffered, whether it failed and whether the context is cancelled by then,
-- or the end of the backoff sleep.
pub data Signal : Type 0 where
  cancelled : Signal
  received : List LeaseWatchResult → Signal
  closed : Signal
  finished : List (List LeaseWatchResult) → Bool → Bool → Signal
  slept : Signal

pub data Phase : Type 0 where
  in_session sleeping returned : Phase

-- `delays` lists the backoff sleeps that have ended, in seconds.
pub record Watch : Type 0 where
  pub watcher : LeaseWatcher
  pub receiver : Sender (List Event)
  pub backoff : ℕ
  pub delays : List ℕ

abbrev after_handled : Watch → Option Handled → Phase → Option (Watch × Phase)
after_handled s none next = none
after_handled s (some (lw, receiver, false)) next =
    some (record s { watcher = lw; receiver = receiver }, returned)
after_handled s (some (lw, receiver, true)) next =
    some (record s { watcher = lw; receiver = receiver }, next)

-- One `select!`. A signal that the phase does not wait for is not taken.
unfoldable pub step : Watch → Phase → Signal → Option (Watch × Phase)
unfolding handle_batch_results handle_buffered
step s in_session cancelled = some (s, returned)
step s in_session (received wrs) =
    after_handled s (handle_batch_results s.watcher wrs s.receiver) in_session
step s in_session closed = some (s, sleeping)
step s in_session (finished buffered failed ctx_cancelled) =
    after_handled s (handle_buffered s.watcher buffered s.receiver)
      (if not failed then returned else if ctx_cancelled then returned else sleeping)
step s in_session slept = some (s, in_session)
step s sleeping cancelled = some (s, returned)
step s sleeping slept = some (
  record s { backoff = min (s.backoff * 2) 30; delays = s.delays ++ (s.backoff ∷ []) },
  in_session,
)
step s sleeping (received wrs) = some (s, sleeping)
step s sleeping closed = some (s, sleeping)
step s sleeping (finished buffered failed ctx_cancelled) = some (s, sleeping)
step s returned signal = some (s, returned)

unfoldable pub run : List Signal → Watch → Phase → Option (Watch × Phase)
unfolding step
run [] s phase = some (s, phase)
run (signal ∷ rest) s phase = elim (step s phase signal) [
  | none ↦ none
  | some (s', phase') ↦ run rest s' phase'
]

-- `room` is how many batches the receiver takes before it is dropped.
unfoldable pub watch_leases : List Signal → Lease → ℕ → Option (Watch × Phase)
unfolding run
watch_leases signals own_lease room =
    let start : Watch = record {
      watcher = new_watcher own_lease;
      receiver = record { sent = []; room = room };
      backoff = 1;
      delays = [];
    } in
    run signals start in_session

unfoldable pub single_event : LeaseWatchResult → Option Event
single_event wr = elim wr.snapshot [
  | l ∷ ls ↦ some (event added l)
  | [] ↦ elim wr.events [ e ∷ es ↦ some e | [] ↦ none ]
]

unfoldable pub handle_single_results : List LeaseWatchResult → Sender Event → Sender Event × Bool
unfolding single_event
handle_single_results [] receiver = (receiver, true)
handle_single_results (wr ∷ wrs) receiver = elim (single_event wr) [
  | none ↦ handle_single_results wrs receiver
  | some e ↦ elim (send receiver e) [
    | none ↦ (receiver, false)
    | some receiver' ↦ handle_single_results wrs receiver'
  ]
]
