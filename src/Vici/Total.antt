-- ===== src/Vici/Total.antt =====
-- The parser is total: its fuel never runs out.
use flannel_rust.Prelude.{
  ℕ, zero, suc, ◌+◌, ◌*◌, ◌≤◌, ◌<◌, ◌≢◌, arith, Bool, true, false, [], ◌∷◌, ltb, ◌==◌,
  if◌then◌else◌, length, drop,
}
use flannel_rust.Prelude.Result.{Result, ok, err, ◌>>=◌}
use flannel_rust.Vici.{
  Bytes, key, list, section, Message, next, ViciError, out_of_fuel, trailing_bytes, read_u16_bytes,
  parse_items, read_name, parse_segments, parse, bytes_eq,
}

-- The reader does not run out of fuel, and leaves at most (k) bytes.
abbrev pub Reads {ℓ} : {A : Type ℓ} → ℕ → Result ViciError (A × Bytes) → Type 0
Reads k (ok (a, rest)) = length rest ≤ k
Reads k (err e) = e ≢ out_of_fuel

pub Reads->>= {ℓ κ} :
    {A : Type ℓ} {B : Type κ} (k j : ℕ) (m : Result ViciError (A × Bytes))
    (f : A × Bytes → Result ViciError (B × Bytes))
    → Reads k m
    → ((a : A) (rest : Bytes) → length rest ≤ k → Reads j (f (a, rest)))
    → Reads j (m >>= f)
Reads->>= k j (ok (a, rest)) f h next_reads = next_reads a rest h
Reads->>= k j (err e) f h next_reads = h

-- A reader's result is not the lack of fuel.
pub Reads→in_time {ℓ} :
    {A : Type ℓ} (k : ℕ) (m : Result ViciError (A × Bytes)) → Reads k m → m ≢ err out_of_fuel
Reads→in_time k (ok a) h = λ p. cc
Reads→in_time k (err e) h = λ p. h cc

pub Reads-weaken {ℓ} :
    {A : Type ℓ} (k j : ℕ) (m : Result ViciError (A × Bytes)) → Reads k m → k ≤ j → Reads j m
Reads-weaken k j (ok (a, rest)) h le = omega arith
Reads-weaken k j (err e) h le = h

pub Reads-if {ℓ} :
    {A : Type ℓ} (k : ℕ) (b : Bool) (m n : Result ViciError (A × Bytes))
    → Reads k m
    → Reads k n
    → Reads k (if b then m else n)
Reads-if k true m n h1 h2 = h1
Reads-if k false m n h1 h2 = h2

pub drop-shorter : (n : ℕ) (xs : Bytes) → length (drop n xs) ≤ length xs
drop-shorter zero xs = omega arith
drop-shorter (suc n) [] = omega arith
drop-shorter (suc n) (x ∷ xs) = omega (arith, drop-shorter n xs)

read_u16_bytes-Reads : (bytes : Bytes) (k : ℕ) → length bytes ≤ k → Reads k (read_u16_bytes bytes)
unfolding read_u16_bytes
read_u16_bytes-Reads [] k h = λ e. cc
read_u16_bytes-Reads (hi ∷ []) k h = λ e. cc
read_u16_bytes-Reads (hi ∷ lo ∷ rest) k h =
    Reads-if k (ltb (length rest) (hi * 256 + lo)) _ _ (λ e. cc)
      (omega (arith, drop-shorter (hi * 256 + lo) rest))

-- Enough fuel for the items of a list: one round for each byte, and one.
parse_items-Reads :
    (n : ℕ) (bytes : Bytes) (k : ℕ)
    → length bytes < n
    → length bytes ≤ k
    → Reads k (parse_items n bytes)
unfolding parse_items
parse_items-Reads zero bytes k h le = absurd (omega arith)
parse_items-Reads (suc n) [] k h le = λ e. cc
parse_items-Reads (suc n) (t ∷ rest) k h le =
    Reads-if k (t == 5) _ _
      (Reads->>= (length rest) k (read_u16_bytes rest) _
        (read_u16_bytes-Reads rest (length rest) (omega arith))
        (λ v rest1 fits.
          Reads->>= k k (parse_items n rest1) _
            (parse_items-Reads n rest1 k (omega arith) (omega arith))
            (λ vs rest2 shorter. shorter)))
      (Reads-if k (t == 6) _ _ (omega arith) (λ e. cc))

whole_ends :
    (r : Result ViciError (Message × Bytes)) (k : ℕ)
    → Reads k r
    → (r >>= λ (segments, rest). if bytes_eq rest [] then ok segments else err trailing_bytes)
      ≢ err out_of_fuel
whole_ends (ok (m, [])) k h = λ e. cc
whole_ends (ok (m, x ∷ rest)) k h = λ e. cc
whole_ends (err e) k h = λ p. h cc

module _ (lossy : Bytes → Bytes) where
  read_name-Reads : (bytes : Bytes) (k : ℕ) → length bytes ≤ k → Reads k (read_name lossy bytes)
  unfolding read_name
  read_name-Reads [] k h = λ e. cc
  read_name-Reads (len ∷ rest) k h =
      Reads-if k (ltb (length rest) len) _ _ (λ e. cc) (omega (arith, drop-shorter len rest))

  -- Enough fuel for the segments: one round for each byte, and one.
  parse_segments-Reads :
      (n : ℕ) (bytes : Bytes) (k : ℕ)
      → length bytes < n
      → length bytes ≤ k
      → Reads k (parse_segments lossy n bytes)
  unfolding parse_segments
  parse_segments-Reads zero bytes k h le = absurd (omega arith)
  parse_segments-Reads (suc n) [] k h le = omega arith
  parse_segments-Reads (suc n) (t ∷ rest) k h le =
      let more : (f : Message → Message) (rest1 : Bytes)
          → length rest1 ≤ length rest
          → Reads k (parse_segments lossy n rest1 >>= λ (m, rest2). ok (f m, rest2)) =
        λ f rest1 fits.
          Reads->>= k k (parse_segments lossy n rest1) (λ (m, rest2). ok (f m, rest2))
            (parse_segments-Reads n rest1 k (omega arith) (omega arith))
            (λ m rest2 shorter. shorter) in
      let named : (f : Bytes × Bytes → Result ViciError (Message × Bytes))
          → ((name rest1 : Bytes) → length rest1 ≤ length rest → Reads k (f (name, rest1)))
          → Reads k (read_name lossy rest >>= f) =
        λ f body.
          Reads->>= (length rest) k (read_name lossy rest) f
            (read_name-Reads rest (length rest) (omega arith)) body in
      let ended : length rest ≤ k = omega arith in
      let a_section = named _ (λ name rest1 fits.
        Reads->>= (length rest) k (parse_segments lossy n rest1) _
          (parse_segments-Reads n rest1 (length rest) (omega arith) fits)
          (λ inner rest2 fits2. more (next (section name inner)) rest2 fits2)) in
      let a_key = named _ (λ name rest1 fits.
        Reads->>= (length rest) k (read_u16_bytes rest1) _
          (read_u16_bytes-Reads rest1 (length rest) fits)
          (λ v rest2 fits2. more (next (key name v)) rest2 fits2)) in
      let a_list = named _ (λ name rest1 fits.
        Reads->>= (length rest) k (parse_items n rest1) _
          (parse_items-Reads n rest1 (length rest) (omega arith) fits)
          (λ items rest2 fits2. more (next (list name items)) rest2 fits2)) in
      Reads-if k (t == 1) _ _ a_section (
        Reads-if k (t == 2) _ _ ended
          (Reads-if k (t == 3) _ _ a_key (Reads-if k (t == 4) _ _ a_list (λ e. cc))))

  -- parse ends on every sequence of bytes with a message or with one of the errors of the code: its
  -- loops need at most one round for each byte, and one more.
  pub parse-total : (bytes : Bytes) → parse lossy bytes ≢ err out_of_fuel
  unfolding parse
  parse-total bytes =
      let reads =
        parse_segments-Reads (suc (length bytes)) bytes (length bytes) (omega arith)
          (omega arith) in
      whole_ends (parse_segments lossy (suc (length bytes)) bytes) (length bytes) reads
