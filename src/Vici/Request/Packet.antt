-- ===== src/Vici/Request/Packet.antt =====
-- Packets that are written and read: the reader gets what the writer sent.
use flannel_rust.Prelude.{
  ℕ, zero, suc, ◌+◌, ◌*◌, ◌/◌, ◌%◌, ◌^◌, ◌≤◌, ◌<◌, ◌≡◌, refl, arith, false, [], ◌∷◌, ◌++◌, ltb,
  ◌==◌, if◌then◌else◌, length, length-append, take-append, drop-append,
}
use flannel_rust.Prelude.Result.{Result, ok, err, ◌>>=◌}
use flannel_rust.Vici.{Bytes, Message, ViciError, unknown_segment, encode, read_name, parse}
use flannel_rust.Vici.Codec.{IsName, IsEncodable, read_name-push, parse-encode}
use flannel_rust.Vici.Total.{Reads, Reads-weaken, Reads-if, drop-shorter}
use flannel_rust.Vici.Request.{write_packet, read_body, read_packet, cmd_request_payload}

-- The payload fits a packet: 64 KiB with the type byte.
abbrev pub IsPayload : Bytes → Type 0
IsPayload payload = length payload < 64 * 1024

-- A packet of any type whose payload is shorter than 64 KiB is read back from the bytes that were
-- written, and what follows it is left.
pub read_packet-write_packet :
    (ptype : ℕ) (payload rest : Bytes)
    → IsPayload payload
    → read_packet (write_packet ptype payload ++ rest) ≡ ok ((ptype, payload), rest)
unfolding read_packet read_body
read_packet-write_packet ptype payload rest h =
    let len = (length payload + 1) % 2 ^ 32 in
    let whole : len / 2 ^ 24 * 2 ^ 24
          + len / 2 ^ 16 % 256 * 2 ^ 16
          + len / 256 % 256 * 256
          + len % 256
        ≡ suc (length payload) =
      omega arith in
    let small : ltb (64 * 1024) (suc (length payload)) ≡ false = ground arith in
    let fits : ltb (length (payload ++ rest)) (length payload) ≡ false =
      ground (arith, length-append payload rest) in
    rw (whole, small, fits, take-append, drop-append) refl

read_body-Reads : (n : ℕ) (bytes : Bytes) → Reads (length bytes) (read_body n bytes)
unfolding read_body
read_body-Reads zero bytes = λ e. cc
read_body-Reads (suc n) [] = Reads-if 0 (ltb (64 * 1024) (suc n)) _ _ (λ e. cc) (λ e. cc)
read_body-Reads (suc n) (t ∷ rest) =
    Reads-if (suc (length rest)) (ltb (64 * 1024) (suc n)) _ _ (λ e. cc)
      (Reads-if (suc (length rest)) (ltb (length rest) n) _ _ (λ e. cc)
        (omega (arith, drop-shorter n rest)))

-- A packet takes its length word at least.
pub read_packet-Reads : (bytes : Bytes) (k : ℕ) → length bytes ≤ suc k → Reads k (read_packet bytes)
unfolding read_packet
read_packet-Reads [] k h = λ e. cc
read_packet-Reads (a ∷ []) k h = λ e. cc
read_packet-Reads (a ∷ b ∷ []) k h = λ e. cc
read_packet-Reads (a ∷ b ∷ c ∷ []) k h = λ e. cc
read_packet-Reads (a ∷ b ∷ c ∷ d ∷ bytes) k h =
    let n = a * 2 ^ 24 + b * 2 ^ 16 + c * 256 + d in
    Reads-weaken (length bytes) k (read_body n bytes) (read_body-Reads n bytes) (omega arith)

-- What the peer makes of a request: the name of the command and its message.
unfoldable pub receive : (Bytes → Bytes) → Bytes → Result ViciError (Bytes × Message)
receive lossy bytes = do
  ((ptype, payload), _) ← read_packet bytes
  (name, msg) ← read_name lossy payload
  m ← parse lossy msg
  if ptype == 0 then ok (name, m) else err (unknown_segment ptype)

-- The peer that reads the packet of a request gets the command's name and the message, for a lossy decoding
-- that keeps the names, a name shorter than 256 bytes, a message that encode can write, and a packet
-- of at most 64 KiB.
pub receive-write_packet :
    (lossy : Bytes → Bytes) (name : Bytes) (m : Message) (rest : Bytes)
    → IsName lossy name
    → IsEncodable lossy m
    → IsPayload (cmd_request_payload name (encode m))
    → receive lossy (write_packet 0 (cmd_request_payload name (encode m)) ++ rest) ≡ ok (name, m)
unfolding receive
receive-write_packet lossy name m rest is_name encodable fits =
    rw
      (
        read_packet-write_packet 0 (cmd_request_payload name (encode m)) rest fits,
        read_name-push lossy name (encode m) is_name,
        parse-encode lossy m encodable,
      )
      refl
