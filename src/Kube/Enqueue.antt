-- ===== src/Kube/Enqueue.antt =====
-- enqueue_lease_event of subnet/kube/events.rs: the first attempt to send, the wait for a slot, and the
-- retries with their backoff, in milliseconds. What the channel, the semaphore and the context do is a
-- parameter.
use native.Mathlib.Nat.{mul_assoc}
use native.Mathlib.Omega.{pow_step}
use mathlib.Core.List.{append-nil}
use flannel_rust.Prelude.{
  ℕ, zero, suc, ◌*◌, ◌^◌, min, ◌≡◌, ◌≤◌, refl, ap, sym, ◌∙◌, arith, Bool-cases, inl, inr, leb,
  leb→le, List, [], ◌∷◌, ◌++◌, replicate,
}
use flannel_rust.Prelude.Mask.{pow_pos}

-- What `try_send` gives.
pub data TrySend : Type 0 where
  sent closed full : TrySend

-- What the wait for a slot gives: the end of the context, a closed semaphore, or a permit.
pub data Slot : Type 0 where
  slot_cancelled slot_closed permit : Slot

-- What ends a sleep of the retries: the end of the context, or its time, and then the attempt to send.
pub data Wake : Type 0 where
  wake_cancelled : Wake
  slept : TrySend → Wake

-- What becomes of the event; a retry that still waits has its backoff.
pub data Sending : Type 0 where
  delivered dropped : Sending
  retrying : ℕ → Sending

unfoldable pub retry : ℕ → List Wake → Sending
retry backoff [] = retrying backoff
retry backoff (wake_cancelled ∷ ws) = dropped
retry backoff (slept sent ∷ ws) = delivered
retry backoff (slept closed ∷ ws) = dropped
retry backoff (slept full ∷ ws) = retry (min (backoff * 2) 5000) ws

unfoldable pub enqueue_lease_event : TrySend → Slot → List Wake → Sending
unfolding retry
enqueue_lease_event sent slot ws = delivered
enqueue_lease_event closed slot ws = dropped
enqueue_lease_event full slot_cancelled ws = dropped
enqueue_lease_event full slot_closed ws = dropped
enqueue_lease_event full permit ws = retry 100 ws

le_mul : (b q : ℕ) → 1 ≤ q → b ≤ b * q
le_mul b zero h = absurd (omega arith)
le_mul b (suc q) h = omega arith

capped : (b q : ℕ) → 1 ≤ q → min (min b 5000 * q) 5000 ≡ min (b * q) 5000
capped b q h = elim (Bool-cases (leb b 5000)) [
  | inl small ↦ let e : min b 5000 ≡ b = omega (arith, leb→le b 5000 small) in rw e refl
  | inr large ↦
      let e : min b 5000 ≡ 5000 = ground (arith, large) in
      let l = le_mul b q h in
      let l2 = le_mul 5000 q h in let over : 5000 ≤ b = ground (arith, large) in rw e (omega arith)
]

retry-full :
    (k b : ℕ) (ws : List Wake)
    → b ≤ 5000
    → retry b (replicate k (slept full) ++ ws) ≡ retry (min (b * 2 ^ k) 5000) ws
unfolding retry
retry-full zero b ws h = let e : min (b * 1) 5000 ≡ b = omega arith in rw e refl
retry-full (suc k) b ws h =
    let pow : b * 2 ^ suc k ≡ b * 2 * 2 ^ k = rw (pow_step 2 k) (sym (mul_assoc b 2 (2 ^ k))) in
    let e = capped (b * 2) (2 ^ k) (pow_pos k) in
    rw (retry-full k (min (b * 2) 5000) ws (omega arith), e, pow) refl

-- An event that finds the channel full and gets a permit waits through any number of failed attempts:
-- after k of them its next sleep is 100 ms doubled k times, at most 5 s, and the attempt that
-- finds room delivers the event.
pub enqueue_lease_event_lem :
    (k : ℕ) (ws : List Wake)
    → (enqueue_lease_event full permit (replicate k (slept full))
        ≡ retrying (min (100 * 2 ^ k) 5000))
      × (enqueue_lease_event full permit (replicate k (slept full) ++ (slept sent ∷ ws))
          ≡ delivered)
unfolding enqueue_lease_event
enqueue_lease_event_lem k ws = (
  ap (retry 100) (sym (append-nil (replicate k (slept full)))) ∙ retry-full k 100 [] (omega arith),
  retry-full k 100 (slept sent ∷ ws) (omega arith),
)
