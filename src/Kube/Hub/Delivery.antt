-- ===== src/Kube/Hub/Delivery.antt =====
-- What an open subscriber gets, action by action.
use flannel_rust.Prelude.{
  ℕ, ◌≡◌, refl, ap, sym, ◌∙◌, arith, false, ◌&&◌, Option, none, some, List, [], ◌∷◌, ◌++◌, ◌==◌,
  if◌then◌else◌, All, Bool-cases, inl, inr,
}
use mathlib.Core.List.{append_assoc, append-nil}
use flannel_rust.Lease.{Event}
use flannel_rust.Kube.Hub.{
  Subscriber, HubInner, send_all, publish, subscribe, Action, published, subscribed,
  receiver_dropped, close, act, run_hub,
}

-- What the open subscriber of a number was sent.
abbrev pub got_of : ℕ → List Subscriber → Option (List Event)
got_of id [] = none
got_of id (s ∷ subscribers) = if s.is_open && s.id == id then some s.got else got_of id subscribers

abbrev pub events_of : List Action → List Event
events_of [] = []
events_of (published e ∷ actions) = e ∷ events_of actions
events_of (subscribed ∷ actions) = events_of actions
events_of (receiver_dropped id ∷ actions) = events_of actions

abbrev pub IsKept : ℕ → Action → Type 0
IsKept id (published e) = Unit
IsKept id subscribed = Unit
IsKept id (receiver_dropped other) = (other == id) ≡ false

got_of-send_all :
    (e : Event) (id : ℕ) (ss : List Subscriber) (g : List Event)
    → got_of id ss ≡ some g
    → got_of id (send_all e ss) ≡ some (g ++ (e ∷ []))
got_of-send_all e id [] g h = cc
got_of-send_all e id (s ∷ ss) g h = elim (Bool-cases s.is_open) [
  | inl o ↦ elim (Bool-cases (s.id == id)) [
    | inl f ↦ let same : s.got ≡ g = cc in rw (o, f) (ap (λ x. some (x ++ (e ∷ []))) same)
    | inr n ↦ let later : got_of id ss ≡ some g = cc in rw (o, n) (got_of-send_all e id ss g later)
  ]
  | inr c ↦ let later : got_of id ss ≡ some g = cc in rw c (got_of-send_all e id ss g later)
]

got_of-append :
    (id : ℕ) (ss ts : List Subscriber) (g : List Event)
    → got_of id ss ≡ some g
    → got_of id (ss ++ ts) ≡ some g
got_of-append id [] ts g h = cc
got_of-append id (s ∷ ss) ts g h = elim (Bool-cases (s.is_open && s.id == id)) [
  | inl f ↦ let same : s.got ≡ g = cc in rw f (ap some same)
  | inr n ↦ let later : got_of id ss ≡ some g = cc in rw n (got_of-append id ss ts g later)
]

got_of-close :
    (id other : ℕ) (ss : List Subscriber) (g : List Event)
    → (other == id) ≡ false
    → got_of id ss ≡ some g
    → got_of id (close other ss) ≡ some g
got_of-close id other [] g apart h = cc
got_of-close id other (s ∷ ss) g apart h = elim (Bool-cases (s.id == other)) [
  | inl f ↦
      let not_it : (s.id == id) ≡ false = ground (arith, f, apart) in
      elim (Bool-cases s.is_open) [
        | inl o ↦
            let later : got_of id ss ≡ some g = cc in rw f (got_of-close id other ss g apart later)
        | inr c ↦
            let later : got_of id ss ≡ some g = cc in rw f (got_of-close id other ss g apart later)
      ]
  | inr n ↦ elim (Bool-cases (s.is_open && s.id == id)) [
    | inl f ↦ let same : s.got ≡ g = cc in rw (n, f) (ap some same)
    | inr m ↦
        let later : got_of id ss ≡ some g = cc in rw (n, m) (got_of-close id other ss g apart later)
  ]
]

got_of-act :
    (a : Action) (id : ℕ) (hub : HubInner) (g : List Event)
    → IsKept id a
    → got_of id hub.subscribers ≡ some g
    → got_of id (act a hub).subscribers ≡ some (g ++ events_of (a ∷ []))
unfolding act publish subscribe
got_of-act (published e) id hub g k h = got_of-send_all e id hub.subscribers g h
got_of-act subscribed id hub g k h =
    got_of-append id hub.subscribers _ g h ∙ ap some (sym (append-nil g))
got_of-act (receiver_dropped other) id hub g k h =
    got_of-close id other hub.subscribers g k h ∙ ap some (sym (append-nil g))

pub events_of-cons :
    (a : Action) (actions : List Action)
    → events_of (a ∷ actions) ≡ events_of (a ∷ []) ++ events_of actions
events_of-cons (published e) actions = refl
events_of-cons subscribed actions = refl
events_of-cons (receiver_dropped id) actions = refl

pub got_of-run_hub :
    (actions : List Action) (id : ℕ) (hub : HubInner) (g : List Event)
    → All (IsKept id) actions
    → got_of id hub.subscribers ≡ some g
    → got_of id (run_hub actions hub).subscribers ≡ some (g ++ events_of actions)
unfolding run_hub
got_of-run_hub [] id hub g k h = h ∙ ap some (sym (append-nil g))
got_of-run_hub (a ∷ actions) id hub g k h =
    got_of-run_hub actions id (act a hub) (g ++ events_of (a ∷ [])) k.1
      (got_of-act a id hub g k.0 h)
    ∙ ap some (
        append_assoc g (events_of (a ∷ [])) (events_of actions)
        ∙ ap (λ x. g ++ x) (sym (events_of-cons a actions)))
