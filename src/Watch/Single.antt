-- ===== src/Watch/Single.antt =====
-- The single-lease watch: one event for every result that has one.
use mathlib.Core.List.{append_assoc, append-nil}
use flannel_rust.Prelude.{
  ℕ, zero, suc, ◌-◌, ◌≡◌, refl, sym, ◌∙◌, arith, Bool, true, false, leb, none, some, List, [], ◌∷◌,
  ◌++◌, length, take, Option-cases, inl, inr,
}
use flannel_rust.Lease.{Event, LeaseWatchResult}
use flannel_rust.Watch.{Sender, send, single_event, handle_single_results}

-- The events of the results, in order; a result without a snapshot and without events has none.
abbrev pub single_events : List LeaseWatchResult → List Event
single_events [] = []
single_events (wr ∷ wrs) = elim (single_event wr) [
  | none ↦ single_events wrs
  | some e ↦ e ∷ single_events wrs
]

-- The sender and the answer after sending some events.
abbrev pub after : List Event → List Event → ℕ → Sender Event × Bool
after events sent room = (
  record { sent = sent ++ take room events; room = room - length events },
  leb (length events) room,
)

after-none :
    (sent : List Event) (room : ℕ)
    → after [] sent room ≡ (record { sent = sent; room = room }, true)
after-none sent room =
    let rest : room - 0 ≡ room = omega arith in
    let goes_on : leb 0 room ≡ true = ground arith in
    rw (take_none room, append-nil, rest, goes_on) refl
  where
    take_none : (n : ℕ) → take {A = Event} n [] ≡ []
    take_none zero = refl
    take_none (suc n) = refl

after-one :
    (e : Event) (es sent : List Event) (room : ℕ)
    → after (e ∷ es) sent (suc room) ≡ after es (sent ++ (e ∷ [])) room
after-one e es sent room =
    let rest : suc room - suc (length es) ≡ room - length es = omega arith in
    let goes_on : leb (suc (length es)) (suc room) ≡ leb (length es) room = ground arith in
    rw (rest, goes_on, append_assoc) refl

after-full :
    (e : Event) (es sent : List Event)
    → after (e ∷ es) sent 0 ≡ (record { sent = sent; room = 0 }, false)
after-full e es sent =
    let rest : 0 - suc (length es) ≡ 0 = omega arith in
    let stops : leb (suc (length es)) 0 ≡ false = ground arith in rw (rest, stops, append-nil) refl

handle-after :
    (wrs : List LeaseWatchResult) (sent : List Event) (room : ℕ)
    → handle_single_results wrs (record { sent = sent; room = room })
      ≡ after (single_events wrs) sent room
unfolding handle_single_results
handle-after [] sent room = sym (after-none sent room)
handle-after (wr ∷ wrs) sent room = elim (Option-cases (single_event wr)) [
  | inl nothing ↦ rw (handle_single_results, single_events, nothing) (handle-after wrs sent room)
  | inr (e, found) ↦
      rw (handle_single_results, single_events, found)
        (by_room e room (λ n. handle-after wrs (sent ++ (e ∷ [])) n))
]
  where
    by_room :
        (e : Event) (room : ℕ)
        → ((n : ℕ)
            → handle_single_results wrs (record { sent = sent ++ (e ∷ []); room = n })
              ≡ after (single_events wrs) (sent ++ (e ∷ [])) n)
        → (elim (send (record { sent = sent; room = room }) e) [
          | none ↦ (record { sent = sent; room = room }, false)
          | some receiver' ↦ handle_single_results wrs receiver'
        ])
          ≡ after (e ∷ single_events wrs) sent room
    by_room e zero again = sym (after-full e (single_events wrs) sent)
    by_room e (suc n) again = again n ∙ sym (after-one e (single_events wrs) sent n)

-- The handling sends the events of the results in order, as many as the receiver takes, and goes on
-- exactly when the receiver takes all of them.
pub handle_single_results_lem :
    (wrs : List LeaseWatchResult) (sent : List Event) (room : ℕ)
    → handle_single_results wrs (record { sent = sent; room = room }) ≡ (
      record {
        sent = sent ++ take room (single_events wrs);
        room = room - length (single_events wrs);
      },
      leb (length (single_events wrs)) room,
    )
handle_single_results_lem wrs sent room = handle-after wrs sent room
