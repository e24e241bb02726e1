-- ===== src/Kube/Frames/Chunks.antt =====
-- How the bytes of a watch stream are cut into chunks.
use flannel_rust.Prelude.{
  ℕ, ◌≡◌, refl, sym, ap, subst, ◌∙◌, false, List, [], ◌∷◌, ◌++◌, ◌==◌, map, Bool-cases, inl, inr,
}
use flannel_rust.Prelude.Result.{Result, ok, err, err≢ok, ◌>>=◌}
use flannel_rust.Kube.Informer.{WatchEvent}
use flannel_rust.Kube.Frames.{
  StreamError, Decoder, split_lines, add_byte, end_line, line_events, drop_cr, decode_all, Yield,
  trailing, yield_then, decode_watch_stream,
}

abbrev Split : Type 0
Split = List (List ℕ) × List ℕ

abbrev before : List (List ℕ) → Split → Split
before lines (more, rest) = (lines ++ more, rest)

add_byte-split :
    (b : ℕ) (s : Split) (bs : List ℕ) (t : List ℕ → Split)
    → ((cs : List ℕ) → t (b ∷ cs) ≡ add_byte b (t cs))
    → add_byte b (before s.0 (t (s.1 ++ bs))) ≡ before (add_byte b s).0 (t ((add_byte b s).1 ++ bs))
add_byte-split b ([], rest) bs t h = sym (h (rest ++ bs))
add_byte-split b (line ∷ lines, rest) bs t h = refl

-- The lines of two parts of the input: what is left of the first part is read with the second one.
split_lines-append :
    (bs cs : List ℕ)
    → split_lines (bs ++ cs) ≡ before (split_lines bs).0 (split_lines ((split_lines bs).1 ++ cs))
unfolding split_lines
split_lines-append [] cs = refl
split_lines-append (b ∷ bs) cs = elim (Bool-cases (b == 10)) [
  | inl e ↦ rw e (ap end_line (split_lines-append bs cs))
  | inr n ↦ rw n (
      ap (add_byte b) (split_lines-append bs cs)
      ∙ add_byte-split b (split_lines bs) cs split_lines (λ x. rw n refl))
]

-- What is left has no complete line.
add_byte-whole :
    (b : ℕ) (s t : Split)
    → t ≡ add_byte b s
    → split_lines s.1 ≡ ([], s.1)
    → (b == 10) ≡ false
    → split_lines t.1 ≡ ([], t.1)
unfolding split_lines
add_byte-whole b ([], rest) t e h n = rw (e, n, h) refl
add_byte-whole b (line ∷ lines, rest) t e h n = rw e h

split_lines-whole : (bs : List ℕ) → split_lines (split_lines bs).1 ≡ ([], (split_lines bs).1)
unfolding split_lines
split_lines-whole [] = refl
split_lines-whole (b ∷ bs) = elim (Bool-cases (b == 10)) [
  | inl e ↦ rw e (split_lines-whole bs)
  | inr n ↦ rw n (
      add_byte-whole b (split_lines bs) (add_byte b (split_lines bs)) refl (split_lines-whole bs) n)
]

append_assoc : (xs ys zs : List WatchEvent) → (xs ++ ys) ++ zs ≡ xs ++ (ys ++ zs)
append_assoc [] ys zs = refl
append_assoc (x ∷ xs) ys zs = ap (λ (t : List WatchEvent). x ∷ t) (append_assoc xs ys zs)

append-nil {ℓ} : {A : Type ℓ} (xs : List A) → xs ++ [] ≡ xs
append-nil [] = refl
append-nil {A} (x ∷ xs) = ap (λ (t : List A). x ∷ t) (append-nil xs)

bytes_assoc : (xs ys zs : List ℕ) → xs ++ (ys ++ zs) ≡ (xs ++ ys) ++ zs
bytes_assoc [] ys zs = refl
bytes_assoc (x ∷ xs) ys zs = ap (λ (t : List ℕ). x ∷ t) (bytes_assoc xs ys zs)

abbrev pub joined : List (List ℕ) → List ℕ
joined [] = []
joined (c ∷ cs) = c ++ joined cs

module _ (d : Decoder) where
  decode_all-append :
      (ls ms : List (List ℕ))
      → decode_all d (ls ++ ms)
        ≡ (decode_all d ls >>= λ xs. decode_all d ms >>= λ ys. ok (xs ++ ys))
  unfolding decode_all
  decode_all-append [] ms = right_unit (decode_all d ms)
    where
      right_unit : (r : Result StreamError (List WatchEvent)) → r ≡ (r >>= λ ys. ok ys)
      right_unit (err e) = refl
      right_unit (ok ys) = refl
  decode_all-append (l ∷ ls) ms =
      ap (λ r. line_events d (drop_cr l) >>= λ xs. r >>= λ ys. ok (xs ++ ys))
        (decode_all-append ls ms)
      ∙ reassociated (line_events d (drop_cr l)) (decode_all d ls) (decode_all d ms)
    where
      reassociated :
          (p q r : Result StreamError (List WatchEvent))
          → (p >>= λ xs. (q >>= λ ys. r >>= λ zs. ok (ys ++ zs)) >>= λ ys. ok (xs ++ ys))
            ≡ ((p >>= λ xs. q >>= λ ys. ok (xs ++ ys)) >>= λ xs. r >>= λ ys. ok (xs ++ ys))
      reassociated (err e) q r = refl
      reassociated (ok xs) (err e) r = refl
      reassociated (ok xs) (ok ys) (err e) = refl
      reassociated (ok xs) (ok ys) (ok zs) = ap (λ l. ok l) (sym (append_assoc xs ys zs))

  abbrev Agrees : Yield d → Yield d → Type 0
  Agrees (events, outcome) (events', outcome') =
      (outcome ≡ outcome') × (outcome ≡ ok tt → events ≡ events')

  together :
      (p q : Result StreamError (List WatchEvent)) (later tail : Yield d)
      → Agrees later (yield_then d q tail)
      → Agrees (yield_then d p later) (yield_then d (p >>= λ xs. q >>= λ ys. ok (xs ++ ys)) tail)
  together (err e) q later tail h = (refl, λ k. refl)
  together (ok xs) (err e) (es, o) tail h = (h.0, λ k. absurd (err≢ok e tt (sym h.0 ∙ k)))
  together (ok xs) (ok ys) (es, o) (ts, last) h =
      (h.0, λ k. ap (λ (l : List WatchEvent). xs ++ l) (h.1 k) ∙ sym (append_assoc xs ys ts))

  -- All of the bytes at once: the lines, and what is left.
  abbrev of_split : Split → Yield d
  of_split (lines, rest) = yield_then d (decode_all d lines) (trailing d rest)

  of_split-before :
      (lines : List (List ℕ)) (s : Split)
      → of_split (before lines s)
        ≡ yield_then d
            (decode_all d lines >>= λ xs. decode_all d s.0 >>= λ ys. ok (xs ++ ys))
            (trailing d s.1)
  of_split-before lines (more, rest) =
      ap (λ r. yield_then d r (trailing d rest)) (decode_all-append lines more)

  stream-of_split :
      (buf : List ℕ) (chunks : List (List ℕ))
      → split_lines buf ≡ ([], buf)
      → Agrees
          (decode_watch_stream d buf (map (λ c. ok c) chunks))
          (of_split (split_lines (buf ++ joined chunks)))
  unfolding decode_watch_stream decode_all
  stream-of_split buf [] h = rw (append-nil buf, h) (refl, λ k. refl)
  stream-of_split buf (chunk ∷ chunks) h =
      let s = split_lines (buf ++ chunk) in
      let t = split_lines (s.1 ++ joined chunks) in
      let later = stream-of_split s.1 chunks (split_lines-whole (buf ++ chunk)) in
      let whole =
        ap (λ l. of_split (split_lines l)) (bytes_assoc buf chunk (joined chunks))
        ∙ ap of_split (split_lines-append (buf ++ chunk) (joined chunks))
        ∙ of_split-before s.0 t in
      subst (Agrees (decode_watch_stream d buf (ok chunk ∷ map (λ c. ok c) chunks))) (sym whole) (
        together (decode_all d s.0) (decode_all d t.0)
          (decode_watch_stream d s.1 (map (λ c. ok c) chunks)) (trailing d t.1) later)

  -- How the bytes are cut into chunks does not matter to a stream that ends without an error: it yields what
  -- all of the bytes in one chunk yield, also where a frame, a line end or a character is cut in two. An error
  -- is the same one for every cut.
  pub decode_watch_stream-chunks :
      (chunks : List (List ℕ))
      → let cut = decode_watch_stream d [] (map (λ c. ok c) chunks) in
        let whole = decode_watch_stream d [] (ok (joined chunks) ∷ []) in
        (cut.1 ≡ whole.1) × (cut.1 ≡ ok tt → cut.0 ≡ whole.0)
  unfolding decode_watch_stream split_lines
  decode_watch_stream-chunks chunks = stream-of_split [] chunks refl

  -- The events of a chunk are lost where a later frame of it ends the stream. For two parts of the input of which
  -- the first is complete lines that decode, and the second has a line that does not: as two chunks they yield the
  -- events of the first part and then the error, and as one chunk the error alone.
  pub decode_watch_stream-lost :
      (bs cs : List ℕ) (events : List WatchEvent) (e : StreamError)
      → (split_lines bs).1 ≡ []
      → decode_all d (split_lines bs).0 ≡ ok events
      → decode_all d (split_lines cs).0 ≡ err e
      → (decode_watch_stream d [] (ok bs ∷ ok cs ∷ []) ≡ (events, err e))
        × (decode_watch_stream d [] (ok (bs ++ cs) ∷ []) ≡ ([], err e))
  unfolding decode_watch_stream
  decode_watch_stream-lost bs cs events e none_left good bad = (
    rw (good, none_left, bad) (ap (λ (l : List WatchEvent). (l, err e)) (append-nil events)),
    rw
        (
          split_lines-append bs cs,
          none_left,
          decode_all-append (split_lines bs).0 (split_lines cs).0,
          good,
          bad,
        )
        refl,
  )
