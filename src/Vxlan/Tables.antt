-- ===== src/Vxlan/Tables.antt =====
-- What the requests of vxlan/device.rs do to the kernel's neighbour and route tables, for a kernel that does
-- what it answers; and what a retried request does.
use Prim.Native.String.{String}
use flannel_rust.Prelude.{
  ℕ, zero, suc, ◌*◌, ◌≡◌, refl, sym, ap, subst, ◌∙◌, Option, none, some, List, [], ◌∷◌, ◌++◌,
  if◌then◌else◌,
}
use flannel_rust.Prelude.Result.{ok, err}
use flannel_rust.Vxlan.{
  Entry, Slot, slot_of, slot_eq, Request, replace_entry, delete_entry, Answer, World,
}
use flannel_rust.Vxlan.Retry.{after_sleep, after_attempt, attempts, retry_do}

-- The tables: the entry at each place, if there is one.
abbrev pub Table : Type 0
Table = Slot → Option Entry

abbrev pub effect : Request → Table → Table
effect (replace_entry e) t s = if slot_eq (slot_of e) s then some e else t s
effect (delete_entry e) t s = if slot_eq (slot_of e) s then none else t s

abbrev pub effects : List Request → Table → Table
effects [] t = t
effects (r ∷ rs) t = effects rs (effect r t)

pub effects-append :
    (rs ss : List Request) (t : Table) → effects (rs ++ ss) t ≡ effects ss (effects rs t)
effects-append [] ss t = refl
effects-append (r ∷ rs) ss t = effects-append rs ss (effect r t)

module _ {K : Type 0} (w : World K) (table : K → Table) where
  -- A request that succeeds has its effect, one that fails has none, and nothing changes in a sleep.
  pub record IsKernel : Type 0 where
    pub done :
        (k : K) (r : Request)
        → (w.execute k r).1 ≡ ok tt
        → table (w.execute k r).0 ≡ effect r (table k)
    pub refused :
        (k : K) (r : Request) (e : String)
        → (w.execute k r).1 ≡ err e
        → table (w.execute k r).0 ≡ table k
    pub slept : (k k' : K) (d : ℕ) → w.sleep k d ≡ some k' → table k' ≡ table k

  abbrev pub Settles : Request → Table → K × Answer → Type 0
  Settles r t (k, ok u) = table k ≡ effect r t
  Settles r t (k, err e) = table k ≡ t

  module _ (kernel : IsKernel) where
    executed : (k : K) (r : Request) (x : K × Answer) → w.execute k r ≡ x → Settles r (table k) x
    executed k r (k', ok u) e = sym (ap (λ x. table x.0) e) ∙ kernel.done k r (ap (λ x. x.1) e)
    executed k r (k', err x) e =
        sym (ap (λ x. table x.0) e) ∙ kernel.refused k r x (ap (λ x. x.1) e)

    slept_on :
        (o : Option K) (k : K) (d : ℕ) (r : Request) (t : Table) (next : K → K × Answer)
        → w.sleep k d ≡ o
        → table k ≡ t
        → ((k' : K) → table k' ≡ t → Settles r t (next k'))
        → Settles r t (after_sleep w o k next)
    slept_on none k d r t next e same h = same
    slept_on (some k') k d r t next e same h = h k' (kernel.slept k k' d e ∙ same)

    attempted :
        (left d : ℕ) (x : K × Answer) (r : Request) (t : Table) (next : K → K × Answer)
        → Settles r t x
        → ((k' : K) → table k' ≡ t → Settles r t (next k'))
        → Settles r t (after_attempt w left d x next)
    attempted left d (k, ok u) r t next s h = s
    attempted zero d (k, err e) r t next s h = s
    attempted (suc left) d (k, err e) r t next s h = slept_on (w.sleep k d) k d r t next refl s h

    attempted_last :
        (d : ℕ) (x : K × Answer) (r : Request) (t : Table) (next : K → K × Answer)
        → Settles r t x
        → Settles r t (after_attempt w zero d x next)
    attempted_last d (k, ok u) r t next s = s
    attempted_last d (k, err e) r t next s = s

    attempts-Settles :
        (left d : ℕ) (r : Request) (t : Table) (k : K)
        → table k ≡ t
        → Settles r t (attempts w left d r k)
    unfolding attempts
    attempts-Settles zero d r t k same =
        attempted_last d (w.execute k r) r t (λ k. (k, ok tt))
          (subst (λ t. Settles r t (w.execute k r)) same (executed k r (w.execute k r) refl))
    attempts-Settles (suc left) d r t k same =
        attempted (suc left) d (w.execute k r) r t (attempts w left (d * 2) r)
          (subst (λ t. Settles r t (w.execute k r)) same (executed k r (w.execute k r) refl))
          (λ k'. attempts-Settles left (d * 2) r t k')

    -- A retried request has its effect if it succeeds, and none if it fails or is cancelled.
    pub retry_do-Settles : (r : Request) (k : K) → Settles r (table k) (retry_do w r k)
    unfolding retry_do
    retry_do-Settles r k = attempts-Settles 9 100 r (table k) k refl
