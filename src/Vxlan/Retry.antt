-- ===== src/Vxlan/Retry.antt =====
-- retry_do of vxlan/events.rs: ten attempts, with a delay of 100 ms that doubles, unless the context is
-- cancelled during a sleep.
use Prim.Native.String.{String}
use flannel_rust.Prelude.{
  ℕ, zero, suc, ◌+◌, ◌*◌, ◌≤◌, ◌≡◌, ◌≢◌, ◌↔◌, refl, ap, sym, arith, Option, none, some,
}
use flannel_rust.Prelude.Result.{ok, err}
use flannel_rust.Vxlan.{Request, Answer, World}

module _ {K : Type 0} (w : World K) where
  -- After a failed attempt: the last one gives its error, another sleeps and goes on.
  abbrev pub after_sleep : Option K → K → (K → K × Answer) → K × Answer
  after_sleep none k next = (k, err "context canceled")
  after_sleep (some k') k next = next k'

  abbrev pub after_attempt : ℕ → ℕ → K × Answer → (K → K × Answer) → K × Answer
  after_attempt left delay (k, ok u) next = (k, ok u)
  after_attempt zero delay (k, err e) next = (k, err e)
  after_attempt (suc left) delay (k, err e) next = after_sleep (w.sleep k delay) k next

  -- The rounds of the loop, each with the number of attempts that follow it.
  unfoldable pub attempts : ℕ → ℕ → Request → K → K × Answer
  attempts zero delay r k = after_attempt zero delay (w.execute k r) (λ k. (k, ok tt))
  attempts (suc left) delay r k =
      after_attempt (suc left) delay (w.execute k r) (attempts left (delay * 2) r)

  unfoldable pub retry_do : Request → K → K × Answer
  retry_do r k = attempts 9 100 r k

  -- Two counters of a run: the requests made, and the milliseconds slept.
  pub record IsMetered (made slept : K → ℕ) : Type 0 where
    pub request_made : (k : K) (r : Request) → made (w.execute k r).0 ≡ made k + 1
    pub request_slept : (k : K) (r : Request) → slept (w.execute k r).0 ≡ slept k
    pub sleep_made : (k k' : K) (d : ℕ) → w.sleep k d ≡ some k' → made k' ≡ made k
    pub sleep_slept : (k k' : K) (d : ℕ) → w.sleep k d ≡ some k' → slept k' ≤ slept k + d

  module _ (made slept : K → ℕ) (metered : IsMetered made slept) where
    abbrev Within : ℕ → ℕ → K → K × Answer → Type 0
    Within more time k (k', a) = (made k' ≤ made k + more) × (slept k' ≤ slept k + time)

    after_sleep-Within :
        (o : Option K) (k : K) (d more time : ℕ) (next : K → K × Answer)
        → w.sleep k d ≡ o
        → ((k' : K) → Within more time k' (next k'))
        → Within more (d + time) k (after_sleep o k next)
    after_sleep-Within none k d more time next e h = (omega arith, omega arith)
    after_sleep-Within (some k') k d more time next e h = (
      omega (arith, (h k').0, metered.sleep_made k k' d e),
      omega (arith, (h k').1, metered.sleep_slept k k' d e),
    )

    after_attempt-Within :
        (left d : ℕ) (x : K × Answer) (more time : ℕ) (next : K → K × Answer)
        → ((k' : K) → Within more time k' (next k'))
        → Within more (d + time) x.0 (after_attempt (suc left) d x next)
    after_attempt-Within left d (k, ok u) more time next h = (omega arith, omega arith)
    after_attempt-Within left d (k, err e) more time next h =
        after_sleep-Within (w.sleep k d) k d more time next refl h

    first-Within :
        (x : K × Answer) (next : K → K × Answer) (d : ℕ)
        → Within 0 0 x.0 (after_attempt zero d x next)
    first-Within (k, ok u) next d = (omega arith, omega arith)
    first-Within (k, err e) next d = (omega arith, omega arith)

    started :
        (k : K) (r : Request) (more time : ℕ) (y : K × Answer)
        → Within more time (w.execute k r).0 y
        → Within (suc more) time k y
    started k r more time (k', a) h = (
      omega (arith, h.0, metered.request_made k r),
      omega (arith, h.1, metered.request_slept k r),
    )

    -- The sum of the delays of so many sleeps.
    abbrev delays : ℕ → ℕ → ℕ
    delays zero d = 0
    delays (suc n) d = d + delays n (d * 2)

    attempts-Within :
        (left d : ℕ) (r : Request) (k : K)
        → Within (suc left) (delays left d) k (attempts left d r k)
    unfolding attempts
    attempts-Within zero d r k =
        started k r 0 0 (after_attempt zero d (w.execute k r) (λ k. (k, ok tt)))
          (first-Within (w.execute k r) (λ k. (k, ok tt)) d)
    attempts-Within (suc left) d r k =
        started k r (suc left) (delays (suc left) d)
          (after_attempt (suc left) d (w.execute k r) (attempts left (d * 2) r))
          (after_attempt-Within left d (w.execute k r) (suc left) (delays left (d * 2))
            (attempts left (d * 2) r) (λ k'. attempts-Within left (d * 2) r k'))

    -- A retried request is made ten times at most, and the sleeps between its attempts take 51.1 seconds
    -- at most, whatever the kernel answers. The two counters are of a kernel that counts each request, and
    -- of a clock on which a sleep takes no longer than its delay.
    pub retry_do_bounds :
        (r : Request) (k : K)
        → (made (retry_do r k).0 ≤ made k + 10) × (slept (retry_do r k).0 ≤ slept k + 51100)
    unfolding retry_do
    retry_do_bounds r k = attempts-Within 9 100 r k

  -- So many failed attempts, each but the last with its sleep behind it, that lead from one state to
  -- another, and the delay that has doubled.
  abbrev pub Fails : ℕ → ℕ → Request → K → K → Type 0
  Fails zero d r k k' = k ≡ k'
  Fails (suc n) d r k k' =
      (e : String) × (k1 : K) × ((w.execute k r).1 ≡ err e)
      × (w.sleep (w.execute k r).0 d ≡ some k1)
      × Fails n (d * 2) r k1 k'

  abbrev Succeeds : ℕ → ℕ → Request → K → Type 0
  Succeeds left d r k =
      (n : ℕ) × (k' : K) × (n ≤ left) × Fails n d r k k' × ((w.execute k' r).1 ≡ ok tt)

  refused : (e : String) → ◌≢◌ {A = Answer} (err e) (ok tt)
  refused e h = cc

  slept_on :
      (left d : ℕ) (r : Request) (k k1 : K) (e : String) (o : Option K)
      → w.execute k r ≡ (k1, err e)
      → w.sleep k1 d ≡ o
      → ((k' : K) → (attempts left (d * 2) r k').1 ≡ ok tt → Succeeds left (d * 2) r k')
      → (after_sleep o k1 (attempts left (d * 2) r)).1 ≡ ok tt
      → Succeeds (suc left) d r k
  slept_on left d r k k1 e none x s ih h = absurd (refused "context canceled" h)
  slept_on left d r k k1 e (some k2) x s ih h =
      let (n, k', few, fails, done) = ih k2 h in
      (suc n, k', omega (arith, few), (e, k2, rw x refl, rw x s, fails), done)

  attempted :
      (left d : ℕ) (r : Request) (k : K) (x : K × Answer)
      → w.execute k r ≡ x
      → ((k' : K) → (attempts left (d * 2) r k').1 ≡ ok tt → Succeeds left (d * 2) r k')
      → (after_attempt (suc left) d x (attempts left (d * 2) r)).1 ≡ ok tt
      → Succeeds (suc left) d r k
  attempted left d r k (k1, ok u) e ih h = (0, k, omega arith, refl, ap (λ x. x.1) e)
  attempted left d r k (k1, err x) e ih h = slept_on left d r k k1 x (w.sleep k1 d) e refl ih h

  attempted_last :
      (d : ℕ) (r : Request) (k : K) (x : K × Answer)
      → w.execute k r ≡ x
      → (after_attempt zero d x (λ k. (k, ok tt))).1 ≡ ok tt
      → Succeeds 0 d r k
  attempted_last d r k (k1, ok u) e h = (0, k, omega arith, refl, ap (λ x. x.1) e)
  attempted_last d r k (k1, err x) e h = absurd (refused x h)

  attempts-Succeeds :
      (left d : ℕ) (r : Request) (k : K) → (attempts left d r k).1 ≡ ok tt → Succeeds left d r k
  unfolding attempts
  attempts-Succeeds zero d r k h = attempted_last d r k (w.execute k r) refl h
  attempts-Succeeds (suc left) d r k h =
      attempted left d r k (w.execute k r) refl (λ k'. attempts-Succeeds left (d * 2) r k') h

  done_at_once :
      (left d : ℕ) (x : K × Answer) (next : K → K × Answer)
      → x.1 ≡ ok tt
      → after_attempt left d x next ≡ x
  done_at_once left d (k, ok u) next h = refl
  done_at_once left d (k, err e) next h = absurd (refused e h)

  -- The first attempt decides where it succeeds.
  pub attempts-ok :
      (left d : ℕ) (r : Request) (k : K)
      → (w.execute k r).1 ≡ ok tt
      → attempts left d r k ≡ w.execute k r
  unfolding attempts
  attempts-ok zero d r k h = done_at_once zero d (w.execute k r) (λ k. (k, ok tt)) h
  attempts-ok (suc left) d r k h =
      done_at_once (suc left) d (w.execute k r) (attempts left (d * 2) r) h

  going_on :
      (left d : ℕ) (x : K × Answer) (k1 : K) (e : String) (next : K → K × Answer)
      → x.1 ≡ err e
      → w.sleep x.0 d ≡ some k1
      → after_attempt (suc left) d x next ≡ next k1
  going_on left d (k, ok u) k1 e next h s = absurd (refused e (sym h))
  going_on left d (k, err x) k1 e next h s = rw s refl

  Fails-attempts :
      (n left d : ℕ) (r : Request) (k k' : K)
      → n ≤ left
      → Fails n d r k k'
      → (w.execute k' r).1 ≡ ok tt
      → (attempts left d r k).1 ≡ ok tt
  unfolding attempts
  Fails-attempts zero left d r k k' few same done =
      let now : (w.execute k r).1 ≡ ok tt = rw same done in rw (attempts-ok left d r k now) now
  Fails-attempts (suc n) zero d r k k' few fails done = absurd (omega arith)
  Fails-attempts (suc n) (suc left) d r k k' few (e, k1, failed, woke, fails) done =
      rw (going_on left d (w.execute k r) k1 e (attempts left (d * 2) r) failed woke)
        (Fails-attempts n left (d * 2) r k1 k' (omega arith) fails done)

  -- A retried request succeeds exactly when one of its first ten attempts does: the ones before it fail,
  -- and the context is not cancelled in a sleep between them.
  pub retry_do_iff :
      (r : Request) (k : K)
      → ((retry_do r k).1 ≡ ok tt)
        ↔ ((n : ℕ) × (k' : K) × (n ≤ 9) × Fails n 100 r k k' × ((w.execute k' r).1 ≡ ok tt))
  unfolding retry_do
  retry_do_iff r k = (
    λ h. attempts-Succeeds 9 100 r k h,
    λ (n, k', few, fails, done). Fails-attempts n 9 100 r k k' few fails done,
  )

  pub retry_do-ok : (r : Request) (k : K) → (w.execute k r).1 ≡ ok tt → retry_do r k ≡ w.execute k r
  unfolding retry_do
  retry_do-ok r k h = attempts-ok 9 100 r k h
