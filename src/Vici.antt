-- ===== src/Vici.antt =====
-- crates/flannel-core/src/backend/ipsec/vici.rs: the messages of strongSwan's VICI protocol, their
-- packets, and the requests. A `String` is the list of its bytes; `String::from_utf8_lossy`, which is
-- the identity on valid UTF-8, is the parameter `lossy`. An offset into a buffer is the rest of it.
pub mod Codec
pub mod Total
pub mod Request
use flannel_rust.Prelude.{
  ℕ, zero, suc, ◌+◌, ◌*◌, ◌/◌, ◌%◌, ◌^◌, Bool, true, false, not, ◌&&◌, Option, none, some, List, [],
  ◌∷◌, ◌++◌, map, ltb, ◌==◌, if◌then◌else◌, length, take, drop,
}
use flannel_rust.Prelude.Result.{Result, ok, err, ◌>>=◌}
use flannel_rust.Prelude.Text.{as_bytes}

abbrev pub Bytes : Type 0
Bytes = List ℕ

mutual
  pub data Segment : Type 0 where
    key : Bytes → Bytes → Segment
    list : Bytes → List Bytes → Segment
    section : Bytes → Message → Segment

  -- The vector of the segments.
  pub data Message : Type 0 where
    end : Message
    next : Segment → Message → Message

pub data ViciError : Type 0 where
  truncated_name truncated_length truncated_value unterminated_list trailing_bytes : ViciError
  segment_inside_list unknown_segment : ℕ → ViciError
  empty_packet unexpected_eof unknown_command : ViciError
  packet_too_long : ℕ → ViciError
  refused : Bytes → ViciError
  -- no error of the code: the fuel of a loop ran out
  out_of_fuel : ViciError

-- `Vec::push`
abbrev pub push : Message → Segment → Message
push end s = next s end
push (next t m) s = next t (push m s)

abbrev pub with_key : Message → Bytes → Bytes → Message
with_key m k v = push m (key k v)

abbrev pub with_list : Message → Bytes → List Bytes → Message
with_list m name items = push m (list name items)

abbrev pub with_section : Message → Bytes → Message → Message
with_section m name inner = push m (section name inner)

-- `len() as u8` before the name, and `(len() as u16).to_be_bytes()` before a value.
abbrev pub push_name : Bytes → Bytes
push_name name = (length name % 256) ∷ name

abbrev pub push_value : Bytes → Bytes
push_value v = (length v % 2 ^ 16 / 256) ∷ (length v % 2 ^ 16 % 256) ∷ v

unfoldable pub encode_items : List Bytes → Bytes
encode_items [] = 6 ∷ []
encode_items (item ∷ items) = 5 ∷ (push_value item ++ encode_items items)

unfoldable mutual
  unfolding encode_items

  pub encode_segment : Segment → Bytes
  encode_segment (key k v) = 3 ∷ (push_name k ++ push_value v)
  encode_segment (list name items) = 4 ∷ (push_name name ++ encode_items items)
  encode_segment (section name inner) = 1 ∷ (push_name name ++ (encode inner ++ (2 ∷ [])))

  pub encode : Message → Bytes
  encode end = []
  encode (next s m) = encode_segment s ++ encode m

abbrev pub name_of : Segment → Bytes
name_of (key k v) = k
name_of (list k items) = k
name_of (section k inner) = k

-- `==` on byte strings
abbrev pub bytes_eq : Bytes → Bytes → Bool
bytes_eq [] [] = true
bytes_eq [] (y ∷ ys) = false
bytes_eq (x ∷ xs) [] = false
bytes_eq (x ∷ xs) (y ∷ ys) = x == y && bytes_eq xs ys

unfoldable pub get : Message → Bytes → Option Segment
get end name = none
get (next s m) name = if bytes_eq (name_of s) name then some s else get m name

unfoldable pub read_u16_bytes : Bytes → Result ViciError (Bytes × Bytes)
read_u16_bytes [] = err truncated_length
read_u16_bytes (hi ∷ []) = err truncated_length
read_u16_bytes (hi ∷ lo ∷ rest) =
    let len = hi * 256 + lo in
    if ltb (length rest) len then err truncated_value else ok (take len rest, drop len rest)

-- The loop over the items of a list.
unfoldable pub parse_items : ℕ → Bytes → Result ViciError (List Bytes × Bytes)
unfolding read_u16_bytes
parse_items zero bytes = err out_of_fuel
parse_items (suc n) [] = err unterminated_list
parse_items (suc n) (t ∷ rest) =
    let item : Result ViciError (List Bytes × Bytes) = (do
      (v, rest1) ← read_u16_bytes rest
      (vs, rest2) ← parse_items n rest1
      ok (v ∷ vs, rest2)) in
    if t == 5 then item else if t == 6 then ok ([], rest) else err (segment_inside_list t)

module _ (lossy : Bytes → Bytes) where
  unfoldable pub read_name : Bytes → Result ViciError (Bytes × Bytes)
  read_name [] = err truncated_name
  read_name (len ∷ rest) =
      if ltb (length rest) len
      then err truncated_name
      else ok (lossy (take len rest), drop len rest)

  -- The segments up to the end of a section or of the bytes.
  unfoldable pub parse_segments : ℕ → Bytes → Result ViciError (Message × Bytes)
  unfolding read_name parse_items read_u16_bytes
  parse_segments zero bytes = err out_of_fuel
  parse_segments (suc n) [] = ok (end, [])
  parse_segments (suc n) (t ∷ rest) =
      let a_section : Result ViciError (Message × Bytes) = (do
        (name, rest1) ← read_name rest
        (inner, rest2) ← parse_segments n rest1
        (more, rest3) ← parse_segments n rest2
        ok (next (section name inner) more, rest3)) in
      let a_key : Result ViciError (Message × Bytes) = (do
        (k, rest1) ← read_name rest
        (v, rest2) ← read_u16_bytes rest1
        (more, rest3) ← parse_segments n rest2
        ok (next (key k v) more, rest3)) in
      let a_list : Result ViciError (Message × Bytes) = (do
        (name, rest1) ← read_name rest
        (items, rest2) ← parse_items n rest1
        (more, rest3) ← parse_segments n rest2
        ok (next (list name items) more, rest3)) in
      if t == 1
      then a_section
      else if t == 2
      then ok (end, rest)
      else if t == 3
      then a_key
      else if t == 4
      then a_list
      else err (unknown_segment t)

  -- One round for each byte, and one more.
  unfoldable pub parse : Bytes → Result ViciError Message
  unfolding parse_segments
  parse bytes = do
    (segments, rest) ← parse_segments (suc (length bytes)) bytes
    if bytes_eq rest [] then ok segments else err trailing_bytes

  abbrev pub text_of : Option Segment → Option Bytes
  text_of (some (key k v)) = some (lossy v)
  text_of (some (list k items)) = none
  text_of (some (section k inner)) = none
  text_of none = none

  unfoldable pub get_str : Message → Bytes → Option Bytes
  unfolding get
  get_str m name = text_of (get m name)
