-- ===== src/Vici/Codec.antt =====
-- Reading what was written.
use mathlib.Core.List.{append_assoc, append-nil}
use flannel_rust.Prelude.{
  ℕ, zero, suc, ◌+◌, ◌*◌, ◌/◌, ◌%◌, ◌^◌, ◌≤◌, ◌<◌, ◌≡◌, refl, sym, ap, ◌∙◌, arith, false, List, [],
  ◌∷◌, ◌++◌, All, ltb, length, length-append, take-append, drop-append,
}
use flannel_rust.Prelude.Result.{Result, ok, ◌>>=◌}
use flannel_rust.Vici.{
  Bytes, Segment, key, list, section, Message, end, next, ViciError, push_name, push_value,
  encode_items, encode_segment, encode, read_u16_bytes, parse_items, read_name, parse_segments,
  parse,
}

-- The length of a value fits its field.
abbrev pub IsValue : Bytes → Type 0
IsValue v = length v < 2 ^ 16

read_u16_bytes-push :
    (v rest : Bytes) → IsValue v → read_u16_bytes (push_value v ++ rest) ≡ ok (v, rest)
unfolding read_u16_bytes
read_u16_bytes-push v rest h =
    let len : length v % 2 ^ 16 / 256 * 256 + length v % 2 ^ 16 % 256 ≡ length v = omega arith in
    let fits : ltb (length (v ++ rest)) (length v) ≡ false = ground (arith, length-append v rest) in
    rw (len, fits, take-append, drop-append) refl

parse_items-encode_items :
    (items : List Bytes) (n : ℕ) (rest : Bytes)
    → All IsValue items
    → length (encode_items items) ≤ n
    → parse_items n (encode_items items ++ rest) ≡ ok (items, rest)
unfolding parse_items encode_items
parse_items-encode_items [] zero rest h le = absurd (omega arith)
parse_items-encode_items [] (suc n) rest h le = refl
parse_items-encode_items (item ∷ items) zero rest h le = absurd (omega arith)
parse_items-encode_items (item ∷ items) (suc n) rest h le =
    let fits : length (encode_items items) ≤ n =
      omega (arith, le, length-append (push_value item) (encode_items items)) in
    rw
      (
        append_assoc item (encode_items items) rest,
        read_u16_bytes-push item (encode_items items ++ rest) h.0,
        parse_items-encode_items items n rest h.1 fits,
      )
      refl

encode_segment-pos : (s : Segment) → 0 < length (encode_segment s)
unfolding encode_segment
encode_segment-pos (key k v) = omega arith
encode_segment-pos (list name items) = omega arith
encode_segment-pos (section name inner) = omega arith

module _ (lossy : Bytes → Bytes) where
  -- The bytes of a `String`, whose length fits its field: valid UTF-8, so that reading keeps them.
  abbrev pub IsName : Bytes → Type 0
  IsName name = (length name < 256) × (lossy name ≡ name)

  unfoldable mutual
    pub IsEncodableSegment : Segment → Type 0
    IsEncodableSegment (key k v) = IsName k × IsValue v
    IsEncodableSegment (list name items) = IsName name × All IsValue items
    IsEncodableSegment (section name inner) = IsName name × IsEncodable inner

    pub IsEncodable : Message → Type 0
    IsEncodable end = Unit
    IsEncodable (next s m) = IsEncodableSegment s × IsEncodable m

  pub read_name-push :
      (name rest : Bytes) → IsName name → read_name lossy (push_name name ++ rest) ≡ ok (name, rest)
  unfolding read_name
  read_name-push name rest (short, text) =
      let len : length name % 256 ≡ length name = omega arith in
      let fits : ltb (length (name ++ rest)) (length name) ≡ false =
        ground (arith, length-append name rest) in
      rw (len, fits, take-append, drop-append, text) refl

  -- What follows the segments: nothing, or the end of their section; and what is left of it.
  pub data Ends : Bytes → Bytes → Type 0 where
    bytes_end : Ends [] []
    section_end : (tail : Bytes) → Ends (2 ∷ tail) tail

  abbrev pub and_more :
      Segment → Result ViciError (Message × Bytes) → Result ViciError (Message × Bytes)
  and_more s m = do (more, rest) ← m; ok (next s more, rest)

  mutual
    unfolding parse_segments encode encode_segment IsEncodable IsEncodableSegment

    parse_segments-encode_segment :
        (s : Segment) (n : ℕ) (rest : Bytes)
        → IsEncodableSegment s
        → length (encode_segment s) ≤ n
        → parse_segments lossy (suc n) (encode_segment s ++ rest)
          ≡ and_more s (parse_segments lossy n rest)
    parse_segments-encode_segment (key k v) n rest (name, value) le =
        rw
          (
            append_assoc k (push_value v) rest,
            read_name-push k (push_value v ++ rest) name,
            read_u16_bytes-push v rest value,
          )
          refl
    parse_segments-encode_segment (list k items) n rest (name, values) le =
        let fits : length (encode_items items) ≤ n =
          omega (arith, le, length-append (push_name k) (encode_items items)) in
        rw
          (
            append_assoc k (encode_items items) rest,
            read_name-push k (encode_items items ++ rest) name,
            parse_items-encode_items items n rest values fits,
          )
          refl
    parse_segments-encode_segment (section k inner) n rest (name, body) le =
        let fits : length (encode inner) < n = omega (
          arith,
          le,
          length-append (push_name k) (encode inner ++ (2 ∷ [])),
          length-append (encode inner) (2 ∷ []),
        ) in
        rw
          (
            append_assoc k (encode inner ++ (2 ∷ [])) rest,
            read_name-push k ((encode inner ++ (2 ∷ [])) ++ rest) name,
            append_assoc (encode inner) (2 ∷ []) rest,
            parse_segments-encode inner n (2 ∷ rest) rest (section_end rest) body fits,
          )
          refl

    parse_segments-encode :
        (m : Message) (n : ℕ) (k tail : Bytes)
        → Ends k tail
        → IsEncodable m
        → length (encode m) < n
        → parse_segments lossy n (encode m ++ k) ≡ ok (m, tail)
    parse_segments-encode end zero k tail e h le = absurd (omega arith)
    parse_segments-encode end (suc n) k tail bytes_end h le = refl
    parse_segments-encode end (suc n) k tail (section_end t) h le = refl
    parse_segments-encode (next s m) zero k tail e h le = absurd (omega arith)
    parse_segments-encode (next s m) (suc n) k tail e h le =
        let lengths = length-append (encode_segment s) (encode m) in
        rw
          (
            append_assoc (encode_segment s) (encode m) k,
            parse_segments-encode_segment s n (encode m ++ k) h.0 (omega (arith, le, lengths)),
            parse_segments-encode m n k tail e h.1
                (omega (arith, le, lengths, encode_segment-pos s)),
          )
          refl

  -- For a lossy decoding that keeps each name of the message, names shorter than 256 bytes and values
  -- shorter than 2^16, parse reads back from encode's bytes the message itself.
  pub parse-encode : (m : Message) → IsEncodable m → parse lossy (encode m) ≡ ok m
  unfolding parse
  parse-encode m h =
      let whole =
        parse_segments-encode m (suc (length (encode m))) [] [] bytes_end h (omega arith) in
      let body : parse_segments lossy (suc (length (encode m))) (encode m) ≡ ok (m, []) =
        ap (parse_segments lossy (suc (length (encode m)))) (sym (append-nil (encode m))) ∙ whole in
      rw body refl

  -- Under the conditions of `parse-encode`, parse accepts the bytes of a message with one section end too
  -- many, and returns the message.
  pub parse_stray_end : (m : Message) → IsEncodable m → parse lossy (encode m ++ (2 ∷ [])) ≡ ok m
  unfolding parse
  parse_stray_end m h =
      let fits : length (encode m) < suc (length (encode m ++ (2 ∷ []))) =
        omega (arith, length-append (encode m) (2 ∷ [])) in
      rw
        (parse_segments-encode m (suc (length (encode m ++ (2 ∷ [])))) (2 ∷ []) [] (section_end [])
          h fits)
        refl
