-- ===== src/Prelude/Lists.antt =====
-- Lists measured and indexed by native numbers, under the library's names.
use Prim.Native.Nat.{ℕ, zero, suc, ◌+◌}
use mathlib.Core.Path.{◌≡◌, refl, ap}
use mathlib.Core.Bool.{Bool, true, false, ◌||◌, ◌&&◌}
use mathlib.Core.Option.{Option, none, some}
use mathlib.Core.List.{List, [], ◌∷◌, ◌++◌}
use mathlib.Core.Logic.{inl, inr, ◌↔◌}
use flannel_rust.Prelude.Tests.{if◌then◌else◌, Bool-cases, Option-cases}
use native.Mathlib.Omega.{arith}

module _ {ℓ} {A : Type ℓ} where
  abbrev pub length : List A → ℕ
  length [] = 0
  length (x ∷ xs) = suc (length xs)

  abbrev pub get_or : List A → ℕ → A → A
  get_or [] i d = d
  get_or (x ∷ xs) zero d = x
  get_or (x ∷ xs) (suc i) d = get_or xs i d

  -- A write out of bounds changes nothing.
  abbrev pub set : List A → ℕ → A → List A
  set [] i v = []
  set (x ∷ xs) zero v = v ∷ xs
  set (x ∷ xs) (suc i) v = x ∷ set xs i v

  abbrev pub take : ℕ → List A → List A
  take zero xs = []
  take (suc n) [] = []
  take (suc n) (x ∷ xs) = x ∷ take n xs

  abbrev pub drop : ℕ → List A → List A
  drop zero xs = xs
  drop (suc n) [] = []
  drop (suc n) (x ∷ xs) = drop n xs

  abbrev pub replicate : ℕ → A → List A
  replicate zero a = []
  replicate (suc n) a = a ∷ replicate n a

  abbrev pub any : (A → Bool) → List A → Bool
  any p [] = false
  any p (x ∷ xs) = p x || any p xs

  abbrev pub filter : (A → Bool) → List A → List A
  filter p [] = []
  filter p (x ∷ xs) = if p x then x ∷ filter p xs else filter p xs

module _ {ℓ κ} {A : Type ℓ} where
  -- A predicate by recursion computes to tuples, which the tactics read and build.
  abbrev pub All : (A → Type κ) → List A → Type κ
  All P [] = Unit
  All P (x ∷ xs) = P x × All P xs

module _ {ℓ} {A : Type ℓ} where
  pub length-append : (xs ys : List A) → length (xs ++ ys) ≡ length xs + length ys
  length-append [] ys = omega arith
  length-append (x ∷ xs) ys = omega (arith, length-append xs ys)

  pub take-append : (xs ys : List A) → take (length xs) (xs ++ ys) ≡ xs
  take-append [] ys = refl
  take-append (x ∷ xs) ys = ap (λ (t : List A). x ∷ t) (take-append xs ys)

  pub drop-append : (xs ys : List A) → drop (length xs) (xs ++ ys) ≡ ys
  drop-append [] ys = refl
  drop-append (x ∷ xs) ys = drop-append xs ys

  pub length-replicate : (n : ℕ) (a : A) → length (replicate n a) ≡ n
  length-replicate zero a = refl
  length-replicate (suc n) a = ap suc (length-replicate n a)

  pub All-filter {κ} :
      (P : A → Type κ) (p : A → Bool) (xs : List A) → All P xs → All P (filter p xs)
  All-filter P p [] h = h
  All-filter P p (x ∷ xs) h = keep (p x) (All-filter P p xs h.1)
    where
      keep : (b : Bool) → All P (filter p xs) → All P (if b then x ∷ filter p xs else filter p xs)
      keep true t = (h.0, t)
      keep false t = t

  pub filter-filter :
      (p q r : A → Bool) (xs : List A)
      → ((x : A) → r x ≡ (q x && p x))
      → filter p (filter q xs) ≡ filter r xs
  filter-filter p q r [] h = refl
  filter-filter p q r (x ∷ xs) h = ground (arith, h x, filter-filter p q r xs h)

  pub filter_congr :
      (p q : A → Bool) (xs : List A) → ((x : A) → p x ≡ q x) → filter p xs ≡ filter q xs
  filter_congr p q [] h = refl
  filter_congr p q (x ∷ xs) h = ground (arith, h x, filter_congr p q xs h)

  pub any-filter-false :
      (p q : A → Bool) (xs : List A) → any p xs ≡ false → any p (filter q xs) ≡ false
  any-filter-false p q [] h = refl
  any-filter-false p q (x ∷ xs) h = ground (arith, any-filter-false p q xs)

  pub filter-true : (xs : List A) → filter (λ _. true) xs ≡ xs
  filter-true [] = refl
  filter-true (x ∷ xs) = ap (λ (t : List A). x ∷ t) (filter-true xs)

  pub All-append {κ} : (P : A → Type κ) (xs ys : List A) → All P xs → All P ys → All P (xs ++ ys)
  All-append P [] ys hx hy = hy
  All-append P (x ∷ xs) ys hx hy = (hx.0, All-append P xs ys hx.1 hy)

module _ {ℓ} {A : Type ℓ} where
  abbrev pub count : (A → Bool) → List A → ℕ
  count p [] = 0
  count p (x ∷ xs) = (if p x then 1 else 0) + count p xs

  pub count-append : (p : A → Bool) (xs ys : List A) → count p (xs ++ ys) ≡ count p xs + count p ys
  count-append p [] ys = omega arith
  count-append p (x ∷ xs) ys = omega (arith, count-append p xs ys)

  -- `position` of an iterator: the first index that satisfies the test.
  abbrev pub position : (A → Bool) → List A → Option ℕ
  position p [] = none
  position p (x ∷ xs) =
      if p x then some 0 else elim (position p xs) [ none ↦ none | some i ↦ some (suc i) ]

  -- `xs[i] = v`, and the element that stood there; out of bounds, nothing changes.
  abbrev pub exchange : ℕ → A → List A → A × List A
  exchange i v [] = (v, [])
  exchange zero v (x ∷ xs) = (x, v ∷ xs)
  exchange (suc i) v (x ∷ xs) = let (old, rest) = exchange i v xs in (old, x ∷ rest)

  -- `swap(0, i)`, for an index within the list.
  abbrev pub swap_front : ℕ → List A → List A
  swap_front i [] = []
  swap_front zero (x ∷ xs) = x ∷ xs
  swap_front (suc i) (x ∷ xs) = let (old, rest) = exchange i x xs in old ∷ rest

  abbrev pub unsnoc : A → List A → List A × A
  unsnoc x [] = ([], x)
  unsnoc x (y ∷ ys) = let (initial, last) = unsnoc y ys in (x ∷ initial, last)

  -- `swap_remove(i)`: the last element takes the place of the one removed.
  abbrev pub swap_remove : ℕ → List A → List A
  swap_remove i [] = []
  swap_remove zero (x ∷ []) = []
  swap_remove zero (x ∷ y ∷ ys) = let (initial, last) = unsnoc y ys in last ∷ initial
  swap_remove (suc i) (x ∷ xs) = x ∷ swap_remove i xs

  pub exchange-count :
      (p : A → Bool) (q : A → Bool) (xs : List A) (v : A) (i : ℕ)
      → position q xs ≡ some i
      → (q (exchange i v xs).0 ≡ true)
        × ((if p (exchange i v xs).0 then 1 else 0) + count p (exchange i v xs).1
            ≡ (if p v then 1 else 0) + count p xs)
  exchange-count p q [] v i e = ground arith
  exchange-count p q (x ∷ xs) v i e = elim (Bool-cases (q x)) [
    | inl here ↦ let first : i ≡ 0 = ground arith in rw first (here, omega arith)
    | inr later ↦ elim (Option-cases (position q xs)) [
      | inl missing ↦ absurd (ground arith)
      | inr (j, found) ↦
          let next : i ≡ suc j = ground arith in
          let (test, counts) = exchange-count p q xs v j found in
          rw next (test, omega (arith, counts))
    ]
  ]

  pub swap_front-count :
      (p : A → Bool) (q : A → Bool) (xs : List A) (i : ℕ)
      → position q xs ≡ some i
      → (x : A) × (rest : List A) × (swap_front i xs ≡ x ∷ rest)
        × (q x ≡ true)
        × (count p (swap_front i xs) ≡ count p xs)
  swap_front-count p q [] i e = absurd (ground arith)
  swap_front-count p q (x ∷ xs) i e = elim (Bool-cases (q x)) [
    | inl here ↦ let first : i ≡ 0 = ground arith in rw first (x, xs, refl, here, refl)
    | inr later ↦ elim (Option-cases (position q xs)) [
      | inl missing ↦ absurd (ground arith)
      | inr (j, found) ↦
          let next : i ≡ suc j = ground arith in
          let (test, counts) = exchange-count p q xs x j found in
          rw next ((exchange j x xs).0, (exchange j x xs).1, refl, test, counts)
    ]
  ]

  pub position-none : (q : A → Bool) (xs : List A) → (position q xs ≡ none) ↔ (count q xs ≡ 0)
  position-none q [] = ground arith
  position-none q (x ∷ xs) = ground (arith, position-none q xs)

  pub unsnoc-count :
      (p : A → Bool) (x : A) (xs : List A)
      → (if p (unsnoc x xs).1 then 1 else 0) + count p (unsnoc x xs).0
        ≡ (if p x then 1 else 0) + count p xs
  unsnoc-count p x [] = refl
  unsnoc-count p x (y ∷ ys) = omega (arith, unsnoc-count p y ys)

  pub swap_remove-count :
      (p : A → Bool) (q : A → Bool) (xs : List A) (i : ℕ)
      → position q xs ≡ some i
      → (x : A) × (q x ≡ true) × ((if p x then 1 else 0) + count p (swap_remove i xs) ≡ count p xs)
  swap_remove-count p q [] i e = absurd (ground arith)
  swap_remove-count p q (x ∷ xs) i e = elim (Bool-cases (q x)) [
    | inl here ↦ let first : i ≡ 0 = ground arith in rw first (x, here, swap_remove_head p x xs)
    | inr later ↦ elim (Option-cases (position q xs)) [
      | inl missing ↦ absurd (ground arith)
      | inr (j, found) ↦
          let next : i ≡ suc j = ground arith in
          let (y, test, counts) = swap_remove-count p q xs j found in
          rw next (y, test, omega (arith, counts))
    ]
  ]
    where
      swap_remove_head :
          (p : A → Bool) (x : A) (xs : List A)
          → (if p x then 1 else 0) + count p (swap_remove 0 (x ∷ xs)) ≡ count p (x ∷ xs)
      swap_remove_head p x [] = refl
      swap_remove_head p x (y ∷ ys) = omega (arith, unsnoc-count p y ys)
