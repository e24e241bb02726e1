-- ===== src/Kube/Hub/Replay.antt =====
-- What a subscriber gets: the backlog, and every event after.
use flannel_rust.Prelude.{
  ℕ, zero, suc, ◌+◌, ◌-◌, ◌≤◌, ◌≡◌, refl, ap, sym, subst, ◌∙◌, arith, max, Bool, true, false, ◌&&◌,
  some, List, [], ◌∷◌, ◌++◌, drop, length, length-append, All-append, ◌<◌, ◌==◌, All, Bool-cases,
  inl, inr,
}
use mathlib.Core.List.{append_assoc, append-nil}
use flannel_rust.Lease.{Event}
use flannel_rust.Kube.Hub.{
  Subscriber, HubInner, new_hub, trimmed, send_all, publish, subscribe, Action, published,
  subscribed, receiver_dropped, close, act, run_hub,
}
use flannel_rust.Kube.Hub.Delivery.{got_of, events_of, IsKept, events_of-cons, got_of-run_hub}

abbrev no_events : List Event
no_events = []

drop-nil : (k : ℕ) → drop k no_events ≡ no_events
drop-nil zero = refl
drop-nil (suc k) = refl

drop-drop : (b a : ℕ) (l : List Event) → drop a (drop b l) ≡ drop (b + a) l
drop-drop zero a l = let e : a ≡ 0 + a = omega arith in ap (λ n. drop n l) e
drop-drop (suc b) zero [] = let e : suc b ≡ suc b + 0 = omega arith in ap (λ (n : ℕ). drop n []) e
drop-drop (suc b) (suc a) [] =
    let f : suc (b + suc a) ≡ suc b + suc a = omega arith in ap (λ n. drop n []) f
drop-drop (suc b) a (x ∷ l) =
    let e : suc (b + a) ≡ suc b + a = omega arith in drop-drop b a l ∙ ap (λ n. drop n (x ∷ l)) e

drop_append : (k : ℕ) (xs ys : List Event) → k ≤ length xs → drop k (xs ++ ys) ≡ drop k xs ++ ys
drop_append zero xs ys h = refl
drop_append (suc k) [] ys h = absurd (omega arith)
drop_append (suc k) (x ∷ xs) ys h = drop_append k xs ys (omega arith)

length-drop : (k : ℕ) (xs : List Event) → length (drop k xs) ≡ length xs - k
length-drop zero xs = omega arith
length-drop (suc k) [] = omega arith
length-drop (suc k) (x ∷ xs) = omega (arith, length-drop k xs)

trimmed-append :
    (capacity : ℕ) (xs : List Event) (e : Event)
    → trimmed capacity (trimmed capacity xs ++ (e ∷ [])) ≡ trimmed capacity (xs ++ (e ∷ []))
trimmed-append capacity xs e =
    let k = length xs - capacity in
    let rest = length (drop k xs ++ (e ∷ [])) - capacity in
    let all : k + rest ≡ length (xs ++ (e ∷ [])) - capacity =
      omega
        (arith, length-append (drop k xs) (e ∷ []), length-append xs (e ∷ []), length-drop k xs) in
    ap (drop rest) (sym (drop_append k xs (e ∷ []) (omega arith)))
    ∙ drop-drop k rest (xs ++ (e ∷ []))
    ∙ ap (λ n. drop n (xs ++ (e ∷ []))) all

-- The state of a hub: its backlog are the last events, and the numbers of its subscribers are taken.
abbrev IsHub : ℕ → List Event → HubInner → Type 0
IsHub capacity events hub =
    (hub.capacity ≡ capacity)
    × (hub.backlog ≡ trimmed capacity events)
    × All (λ (s : Subscriber). s.id < hub.next_id) hub.subscribers

below-suc :
    (n : ℕ) (ss : List Subscriber)
    → All (λ (s : Subscriber). s.id < n) ss
    → All (λ (s : Subscriber). s.id < suc n) ss
below-suc n [] h = tt
below-suc n (s ∷ ss) h = (omega (arith, h.0), below-suc n ss h.1)

send_all-below :
    (e : Event) (n : ℕ) (ss : List Subscriber)
    → All (λ (s : Subscriber). s.id < n) ss
    → All (λ (s : Subscriber). s.id < n) (send_all e ss)
send_all-below e n [] h = tt
send_all-below e n (s ∷ ss) h = elim (Bool-cases s.is_open) [
  | inl o ↦ rw o (h.0, send_all-below e n ss h.1)
  | inr c ↦ rw c (send_all-below e n ss h.1)
]

close-below :
    (id n : ℕ) (ss : List Subscriber)
    → All (λ (s : Subscriber). s.id < n) ss
    → All (λ (s : Subscriber). s.id < n) (close id ss)
close-below id n [] h = tt
close-below id n (s ∷ ss) h = elim (Bool-cases (s.id == id)) [
  | inl o ↦ rw o (h.0, close-below id n ss h.1)
  | inr c ↦ rw c (h.0, close-below id n ss h.1)
]

act-IsHub :
    (capacity : ℕ) (a : Action) (events : List Event) (hub : HubInner)
    → IsHub capacity events hub
    → IsHub capacity (events ++ events_of (a ∷ [])) (act a hub)
unfolding act publish subscribe
act-IsHub capacity (published e) events hub (c, b, below) = (
  c,
  rw (c, b) (trimmed-append capacity events e),
  send_all-below e hub.next_id hub.subscribers below,
)
act-IsHub capacity subscribed events hub (c, b, below) = (
  c,
  b ∙ ap (trimmed capacity) (sym (append-nil events)),
  All-append _ hub.subscribers _ (below-suc hub.next_id hub.subscribers below) (omega arith, tt),
)
act-IsHub capacity (receiver_dropped id) events hub (c, b, below) = (
  c,
  b ∙ ap (trimmed capacity) (sym (append-nil events)),
  close-below id hub.next_id hub.subscribers below,
)

run_hub-IsHub :
    (capacity : ℕ) (actions : List Action) (events : List Event) (hub : HubInner)
    → IsHub capacity events hub
    → IsHub capacity (events ++ events_of actions) (run_hub actions hub)
unfolding run_hub
run_hub-IsHub capacity [] events hub h =
    subst (λ es. IsHub capacity es hub) (sym (append-nil events)) h
run_hub-IsHub capacity (a ∷ actions) events hub h =
    subst (λ es. IsHub capacity es (run_hub actions (act a hub)))
      (append_assoc events (events_of (a ∷ [])) (events_of actions)
        ∙ ap (λ x. events ++ x) (sym (events_of-cons a actions)))
      (run_hub-IsHub capacity actions (events ++ events_of (a ∷ [])) (act a hub)
        (act-IsHub capacity a events hub h))

not_it : (o : Bool) (i n : ℕ) → i < n → (o && i == n) ≡ false
not_it true i n h = ground arith
not_it false i n h = refl

got_of-subscribe :
    (n : ℕ) (backlog : List Event) (ss : List Subscriber)
    → All (λ (s : Subscriber). s.id < n) ss
    → got_of n (ss ++ (record { id = n; is_open = true; got = backlog } ∷ [])) ≡ some backlog
got_of-subscribe n backlog [] h = ground arith
got_of-subscribe n backlog (s ∷ ss) h =
    let other : (s.is_open && s.id == n) ≡ false = not_it s.is_open s.id n h.0 in
    rw other (got_of-subscribe n backlog ss h.1)

-- A subscriber of a hub that has seen any actions: as long as its receiver is not dropped, it has got the
-- last events that were published before it subscribed, as many as the capacity, at least one, and
-- then every event that was published after, in order.
pub run_hub-replay :
    (capacity : ℕ) (before after : List Action)
    → All (IsKept (run_hub before (new_hub capacity)).next_id) after
    → got_of
        (run_hub before (new_hub capacity)).next_id
        (run_hub after (subscribe (run_hub before (new_hub capacity)))).subscribers
      ≡ some (trimmed (max capacity 1) (events_of before) ++ events_of after)
unfolding subscribe
run_hub-replay capacity before after kept =
    let hub = run_hub before (new_hub capacity) in
    let start : IsHub (max capacity 1) [] (new_hub capacity) =
      (refl, sym (drop-nil (0 - max capacity 1)), tt) in
    let state = run_hub-IsHub (max capacity 1) before [] (new_hub capacity) start in
    let first = got_of-subscribe hub.next_id hub.backlog hub.subscribers state.2 in
    got_of-run_hub after hub.next_id (subscribe hub) hub.backlog kept first
    ∙ ap (λ b. some (b ++ events_of after)) state.1
