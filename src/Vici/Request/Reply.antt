-- ===== src/Vici/Request/Reply.antt =====
-- What a request returns, for the replies that the peer sends.
use flannel_rust.Prelude.{
  ℕ, zero, suc, ◌≤◌, ◌<◌, ◌≡◌, ◌≢◌, ◌↔◌, refl, ap, arith, Bool, true, false, Option, none, some,
  List, [], ◌∷◌, ◌++◌, All, ◌==◌, if◌then◌else◌, length, length-append,
}
use flannel_rust.Prelude.Result.{Result, ok, err, ◌>>=◌, >>=-avoids}
use flannel_rust.Prelude.Text.{as_bytes}
use flannel_rust.Vici.{
  Bytes, Message, ViciError, refused, out_of_fuel, encode, parse, get_str, bytes_eq,
}
use flannel_rust.Vici.Codec.{IsEncodable, parse-encode}
use flannel_rust.Vici.Total.{Reads, Reads->>=, Reads-if, Reads→in_time, parse-total}
use flannel_rust.Vici.Request.{
  write_packet, read_packet, cmd_request_payload, await_response, succeeded, or_unknown,
  check_success, request, call,
}
use flannel_rust.Vici.Request.Packet.{IsPayload, read_packet-write_packet, read_packet-Reads}

-- A packet that is neither a response nor the answer to an unknown command.
abbrev pub IsEvent : ℕ × Bytes → Type 0
IsEvent (ptype, body) = ((ptype == 1) ≡ false) × ((ptype == 2) ≡ false) × IsPayload body

abbrev pub packets : List (ℕ × Bytes) → Bytes → Bytes
packets [] rest = rest
packets ((ptype, body) ∷ events) rest = write_packet ptype body ++ packets events rest

bytes_eq_iff : (xs ys : Bytes) → (bytes_eq xs ys ≡ true) ↔ (xs ≡ ys)
bytes_eq_iff [] [] = ((λ h. refl), (λ h. refl))
bytes_eq_iff [] (y ∷ ys) = ((λ h. cc), (λ h. cc))
bytes_eq_iff (x ∷ xs) [] = ((λ h. cc), (λ h. cc))
bytes_eq_iff (x ∷ xs) (y ∷ ys) = let ih = bytes_eq_iff xs ys in grind (arith)

succeeded_iff : (o : Option Bytes) → (succeeded o ≡ true) ↔ (o ≡ some (as_bytes "yes"))
succeeded_iff none = ((λ h. cc), (λ h. cc))
succeeded_iff (some text) =
    let same = bytes_eq_iff text (as_bytes "yes") in ((λ h. ap some (same.0 h)), (λ h. same.1 cc))

abbrev answered : Bool → ViciError → Result ViciError (Unit {0})
answered b e = if b then ok tt else err e

answered-in_time : (b : Bool) (r : Bytes) → answered b (refused r) ≢ err out_of_fuel
answered-in_time true r = λ p. cc
answered-in_time false r = λ p. cc

answered_iff :
    (b : Bool) (P : Type 0) (e : ViciError) (rest : Bytes)
    → ((b ≡ true) ↔ P)
    → ((answered b e >>= λ _. ok rest) ≡ ok rest) ↔ P
answered_iff true P e rest said = ((λ h. said.0 refl), (λ h. refl))
answered_iff false P e rest said = ((λ h. cc), (λ h. let no = said.1 h in cc))

module _ (lossy : Bytes → Bytes) where
  await_response-packets :
      (events : List (ℕ × Bytes)) (m : Message) (n : ℕ) (rest : Bytes)
      → All IsEvent events
      → IsEncodable lossy m
      → IsPayload (encode m)
      → length (packets events (write_packet 1 (encode m) ++ rest)) < n
      → await_response lossy n (packets events (write_packet 1 (encode m) ++ rest)) ≡ ok (m, rest)
  unfolding await_response
  await_response-packets events m zero rest h encodable fits le = absurd (omega arith)
  await_response-packets [] m (suc n) rest h encodable fits le =
      rw (read_packet-write_packet 1 (encode m) rest fits, parse-encode lossy m encodable) refl
  await_response-packets ((ptype, body) ∷ events) m (suc n) rest ((n1, n2, is_payload), h) encodable
        fits le =
      let tail = packets events (write_packet 1 (encode m) ++ rest) in
      let shorter : length tail < n = omega (arith, length-append body tail) in
      rw
        (
          read_packet-write_packet ptype body tail is_payload,
          n1,
          n2,
          await_response-packets events m n rest h encodable fits shorter,
        )
        refl

  parsed :
      (body rest : Bytes) (k : ℕ)
      → length rest ≤ k
      → Reads k (parse lossy body >>= λ m. ok (m, rest))
  parsed body rest k h = one (parse lossy body) (parse-total lossy body)
    where
      one : (r : Result ViciError Message) → r ≢ err out_of_fuel → Reads k (r >>= λ m. ok (m, rest))
      one (ok m) n = h
      one (err e) n = λ p. n (ap err p)

  -- Enough fuel: a packet takes at least one byte.
  await_response-Reads :
      (n : ℕ) (bytes : Bytes) (k : ℕ)
      → length bytes < n
      → length bytes ≤ k
      → Reads k (await_response lossy n bytes)
  unfolding await_response
  await_response-Reads zero bytes k h le = absurd (omega arith)
  await_response-Reads (suc n) [] k h le = λ e. cc
  await_response-Reads (suc n) (b ∷ bytes) k h le =
      Reads->>= (length bytes) k (read_packet (b ∷ bytes)) _
        (read_packet-Reads (b ∷ bytes) (length bytes) (omega arith))
        (λ packet rest shorter.
          Reads-if k (packet.0 == 1) _ _ (parsed packet.1 rest k (omega arith)) (
            Reads-if k (packet.0 == 2) _ _ (λ e. cc)
              (await_response-Reads n rest k (omega arith) (omega arith))))

  module _ (send : Bytes → Result ViciError (Unit {0})) where
    call_lem :
        (name : Bytes) (asked m : Message) (events : List (ℕ × Bytes)) (rest : Bytes)
        → send (write_packet 0 (cmd_request_payload name (encode asked))) ≡ ok tt
        → All IsEvent events
        → IsEncodable lossy m
        → IsPayload (encode m)
        → call lossy send name asked (packets events (write_packet 1 (encode m) ++ rest))
          ≡ (check_success lossy m >>= λ _. ok rest)
    unfolding call request
    call_lem name asked m events rest sent h encodable fits =
        let bytes = packets events (write_packet 1 (encode m) ++ rest) in
        rw
          (
            sent,
            await_response-packets events m (suc (length bytes)) rest h encodable fits
                (omega arith),
          )
          refl

    -- When the peer takes the request, answers it after any number of packets that are neither
    -- responses nor answers to an unknown command, all packets are at most 64 KiB, and the response is
    -- a message that encode can write, then the call succeeds exactly when the message says "yes" under
    -- "success"; what follows the response is left to be read.
    pub call_succeeds_iff :
        (name : Bytes) (asked m : Message) (events : List (ℕ × Bytes)) (rest : Bytes)
        → send (write_packet 0 (cmd_request_payload name (encode asked))) ≡ ok tt
        → All IsEvent events
        → IsEncodable lossy m
        → IsPayload (encode m)
        → (call lossy send name asked (packets events (write_packet 1 (encode m) ++ rest))
            ≡ ok rest)
          ↔ (get_str lossy m (as_bytes "success") ≡ some (as_bytes "yes"))
    unfolding check_success
    call_succeeds_iff name asked m events rest sent h encodable fits =
        let said = succeeded_iff (get_str lossy m (as_bytes "success")) in
        rw (call_lem name asked m events rest sent h encodable fits) (
          answered_iff (succeeded (get_str lossy m (as_bytes "success")))
            (get_str lossy m (as_bytes "success") ≡ some (as_bytes "yes"))
            (refused (or_unknown (get_str lossy m (as_bytes "err")))) rest said)

    -- For a peer whose failures to take a packet are errors of the socket, a call ends on every sequence
    -- of reply bytes with a success or with one of the errors of the code.
    pub call_total :
        (name : Bytes) (asked : Message) (bytes : Bytes)
        → ((packet : Bytes) → send packet ≢ err out_of_fuel)
        → call lossy send name asked bytes ≢ err out_of_fuel
    unfolding call request check_success
    call_total name asked bytes h =
        >>=-avoids out_of_fuel (request lossy send name (encode asked) bytes) _
          (>>=-avoids out_of_fuel (send (write_packet 0 (cmd_request_payload name (encode asked))))
            _ (h (write_packet 0 (cmd_request_payload name (encode asked))))
            (λ _. Reads→in_time (length bytes) (await_response lossy (suc (length bytes)) bytes) (
              await_response-Reads (suc (length bytes)) bytes (length bytes) (omega arith)
                (omega arith))))
          (λ (m, rest).
            >>=-avoids out_of_fuel (check_success lossy m) _
              (answered-in_time (succeeded (get_str lossy m (as_bytes "success")))
                (or_unknown (get_str lossy m (as_bytes "err"))))
              (λ _ p. cc))
