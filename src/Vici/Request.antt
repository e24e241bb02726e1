-- ===== src/Vici/Request.antt =====
-- The packets, the requests and the replies of crates/flannel-core/src/backend/ipsec/vici.rs. The socket
-- is the list of the bytes that are still to be read from it, after which it is closed, and `send`, which
-- says whether the peer takes the bytes of a packet.
pub mod Packet
pub mod Reply
use flannel_rust.Prelude.{
  ℕ, zero, suc, ◌+◌, ◌*◌, ◌/◌, ◌%◌, ◌^◌, Bool, true, false, Option, none, some, List, [], ◌∷◌, ◌++◌,
  map, ltb, ◌==◌, if◌then◌else◌, length, take, drop,
}
use flannel_rust.Prelude.Result.{Result, ok, err, ◌>>=◌}
use flannel_rust.Prelude.Text.{as_bytes}
use flannel_rust.Vici.{
  Bytes, Message, end, ViciError, empty_packet, unexpected_eof, unknown_command, packet_too_long,
  refused, out_of_fuel, with_key, with_list, with_section, encode, parse, get_str, bytes_eq,
}

-- `len.to_be_bytes()` before the type byte and the payload.
abbrev pub write_packet : ℕ → Bytes → Bytes
write_packet ptype payload =
    let len = (length payload + 1) % 2 ^ 32 in
    (len / 2 ^ 24) ∷ (len / 2 ^ 16 % 256) ∷ (len / 256 % 256) ∷ (len % 256) ∷ ptype ∷ payload

-- The body after the length word.
unfoldable pub read_body : ℕ → Bytes → Result ViciError ((ℕ × Bytes) × Bytes)
read_body zero bytes = err empty_packet
read_body (suc n) [] =
    if ltb (64 * 1024) (suc n) then err (packet_too_long (suc n)) else err unexpected_eof
read_body (suc n) (ptype ∷ rest) =
    if ltb (64 * 1024) (suc n)
    then err (packet_too_long (suc n))
    else if ltb (length rest) n
    then err unexpected_eof
    else ok ((ptype, take n rest), drop n rest)

unfoldable pub read_packet : Bytes → Result ViciError ((ℕ × Bytes) × Bytes)
unfolding read_body
read_packet [] = err unexpected_eof
read_packet (a ∷ []) = err unexpected_eof
read_packet (a ∷ b ∷ []) = err unexpected_eof
read_packet (a ∷ b ∷ c ∷ []) = err unexpected_eof
read_packet (a ∷ b ∷ c ∷ d ∷ bytes) = read_body (a * 2 ^ 24 + b * 2 ^ 16 + c * 256 + d) bytes

abbrev pub cmd_request_payload : Bytes → Bytes → Bytes
cmd_request_payload name msg = (length name % 256) ∷ (name ++ msg)

pub record ChildConf : Type 0 where
  pub local_ts : List Bytes
  pub remote_ts : List Bytes
  pub esp_proposals : List Bytes
  pub start_action : Bytes
  pub close_action : Bytes
  pub dpd_action : Bytes
  pub mode : Bytes
  pub reqid : Bytes
  pub rekey_time : Bytes
  pub install_policy : Bytes

pub record IkeConf : Type 0 where
  pub local_addrs : List Bytes
  pub remote_addrs : List Bytes
  pub proposals : List Bytes
  pub version : Bytes
  pub keying_tries : Bytes
  pub encap : Bytes
  pub child_name : Bytes
  pub child : ChildConf

-- The messages of load_shared, load_conn and unload_conn.
abbrev pub shared_message : Bytes → Bytes → List Bytes → Message
shared_message typ secret owners =
    with_list (with_key (with_key end (as_bytes "type") typ) (as_bytes "data") secret)
      (as_bytes "owners") owners

abbrev pub child_message : ChildConf → Message
child_message child =
    let lists =
      with_list
        (with_list (with_list end (as_bytes "local_ts") child.local_ts) (as_bytes "remote_ts")
          child.remote_ts)
        (as_bytes "esp_proposals") child.esp_proposals in
    let actions =
      with_key
        (with_key (with_key lists (as_bytes "start_action") child.start_action)
          (as_bytes "close_action") child.close_action)
        (as_bytes "dpd_action") child.dpd_action in
    let ids =
      with_key (with_key actions (as_bytes "mode") child.mode) (as_bytes "reqid") child.reqid in
    with_key (with_key ids (as_bytes "rekey_time") child.rekey_time) (as_bytes "install_policy")
      child.install_policy

abbrev pub psk : Message
psk = with_key end (as_bytes "auth") (as_bytes "psk")

abbrev pub conn_message : Bytes → IkeConf → Message
conn_message name ike =
    let lists =
      with_list
        (with_list (with_list end (as_bytes "local_addrs") ike.local_addrs)
          (as_bytes "remote_addrs") ike.remote_addrs)
        (as_bytes "proposals") ike.proposals in
    let keys =
      with_key
        (with_key (with_key lists (as_bytes "version") ike.version) (as_bytes "keying_tries")
          ike.keying_tries)
        (as_bytes "encap") ike.encap in
    let auths =
      with_section (with_section keys (as_bytes "local-1") psk) (as_bytes "remote-1") psk in
    let children = with_section end ike.child_name (child_message ike.child) in
    with_section end name (with_section auths (as_bytes "children") children)

abbrev pub unload_message : Bytes → Message
unload_message name = with_key end (as_bytes "name") name

abbrev pub or_unknown : Option Bytes → Bytes
or_unknown none = as_bytes "unknown error"
or_unknown (some text) = text

abbrev pub succeeded : Option Bytes → Bool
succeeded none = false
succeeded (some text) = bytes_eq text (as_bytes "yes")

module _ (lossy : Bytes → Bytes) where
  -- The replies up to a response; other packets are skipped.
  unfoldable pub await_response : ℕ → Bytes → Result ViciError (Message × Bytes)
  unfolding read_packet
  await_response zero bytes = err out_of_fuel
  await_response (suc n) bytes = do
    ((ptype, body), rest) ← read_packet bytes
    let response : Result ViciError (Message × Bytes) = (do m ← parse lossy body; ok (m, rest))
    let skipped = await_response n rest
    if ptype == 1 then response else if ptype == 2 then err unknown_command else skipped

  unfoldable pub check_success : Message → Result ViciError (Unit {0})
  check_success m =
      if succeeded (get_str lossy m (as_bytes "success"))
      then ok tt
      else err (refused (or_unknown (get_str lossy m (as_bytes "err"))))

  module _ (send : Bytes → Result ViciError (Unit {0})) where
    -- One reply at most for each byte, and one more round.
    unfoldable pub request : Bytes → Bytes → Bytes → Result ViciError (Message × Bytes)
    unfolding await_response
    request name msg bytes = do
      _ ← send (write_packet 0 (cmd_request_payload name msg))
      await_response (suc (length bytes)) bytes

    -- A request whose response must say that it succeeded: what is left to read from the socket.
    unfoldable pub call : Bytes → Message → Bytes → Result ViciError Bytes
    unfolding request check_success
    call name m bytes = do
      (resp, rest) ← request name (encode m) bytes
      _ ← check_success resp
      ok rest

    abbrev pub load_shared : Bytes → Bytes → List Bytes → Bytes → Result ViciError Bytes
    load_shared typ secret owners = call (as_bytes "load-shared") (shared_message typ secret owners)

    abbrev pub load_conn : Bytes → IkeConf → Bytes → Result ViciError Bytes
    load_conn name ike = call (as_bytes "load-conn") (conn_message name ike)

    abbrev pub unload_conn : Bytes → Bytes → Result ViciError Bytes
    unload_conn name = call (as_bytes "unload-conn") (unload_message name)
