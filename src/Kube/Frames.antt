-- ===== src/Kube/Frames.antt =====
-- crates/flannel-core/src/kube/watch.rs: the decoding of a watch stream from chunks of bytes. The JSON decoder
-- and the reading of UTF-8 are parameters (Decoder).
pub mod Chunks
use Prim.Native.String.{String}
use text.Mathlib.Text.{◌==◌ as str_eq}
use flannel_rust.Prelude.{
  ℕ, Bool, true, false, ◌||◌, Option, none, some, List, [], ◌∷◌, ◌++◌, ◌==◌, if◌then◌else◌,
}
use flannel_rust.Prelude.Result.{Result, ok, err, ◌>>=◌}
use flannel_rust.Kube.{Node}
use flannel_rust.Kube.Informer.{
  WatchEventType, watch_added, watch_modified, watch_deleted, watch_bookmark, watch_error,
  WatchEvent,
}

pub record Status : Type 0 where
  pub message : String
  pub reason : String
  pub code : ℕ

-- The errors of the client that the decoding gives.
pub data StreamError : Type 0 where
  decode : String → StreamError
  gone : StreamError
  api : Status → StreamError

unfoldable pub is_expired : Status → Bool
is_expired status = status.code == 410 || str_eq status.reason "Expired"

-- A frame is decoded to its type and the text of its object; `from_utf8` is none where the bytes are no text.
pub record Decoder : Type 0 where
  pub frame_of : String → Option (WatchEventType × String)
  pub status_of : String → Option Status
  pub node_of : String → Option Node
  pub from_utf8 : List ℕ → Option String
  pub from_utf8_lossy : List ℕ → String

abbrev pub status_error : Option Status → StreamError
status_error none = decode "invalid ERROR status in watch frame"
status_error (some status) = if is_expired status then gone else api status

abbrev pub node_event : WatchEventType → Option Node → Result StreamError WatchEvent
node_event t none = err (decode "invalid node in watch frame")
node_event t (some node) = ok (record { event_type = t; object = node })

-- `line.last()` is a carriage return, which is popped.
abbrev pub drop_cr : List ℕ → List ℕ
drop_cr [] = []
drop_cr (b ∷ []) = if b == 13 then [] else b ∷ []
drop_cr (b ∷ c ∷ bs) = b ∷ drop_cr (c ∷ bs)

abbrev pub consed : ℕ → List ℕ → List ℕ
consed b [] = if b == 10 || b == 13 then [] else b ∷ []
consed b (c ∷ bs) = b ∷ c ∷ bs

-- The line feeds and carriage returns at the end are popped.
abbrev pub drop_ends : List ℕ → List ℕ
drop_ends [] = []
drop_ends (b ∷ bs) = consed b (drop_ends bs)

abbrev pub add_byte : ℕ → List (List ℕ) × List ℕ → List (List ℕ) × List ℕ
add_byte b ([], rest) = ([], b ∷ rest)
add_byte b (line ∷ lines, rest) = ((b ∷ line) ∷ lines, rest)

abbrev pub end_line : List (List ℕ) × List ℕ → List (List ℕ) × List ℕ
end_line (lines, rest) = ([] ∷ lines, rest)

-- The lines that `drain(..=pos)` takes off the buffer, without their line feeds, and what stays in it.
unfoldable pub split_lines : List ℕ → List (List ℕ) × List ℕ
split_lines [] = ([], [])
split_lines (b ∷ bs) = if b == 10 then end_line (split_lines bs) else add_byte b (split_lines bs)

module _ (d : Decoder) where
  abbrev pub frame_event : Option (WatchEventType × String) → Result StreamError WatchEvent
  frame_event none = err (decode "invalid watch frame")
  frame_event (some (watch_error, object)) = err (status_error (d.status_of object))
  frame_event (some (watch_added, object)) = node_event watch_added (d.node_of object)
  frame_event (some (watch_modified, object)) = node_event watch_modified (d.node_of object)
  frame_event (some (watch_deleted, object)) = node_event watch_deleted (d.node_of object)
  frame_event (some (watch_bookmark, object)) = node_event watch_bookmark (d.node_of object)

  unfoldable pub parse_watch_line : String → Result StreamError WatchEvent
  parse_watch_line line = frame_event (d.frame_of line)

  abbrev pub text_events : Option String → Result StreamError (List WatchEvent)
  text_events none = err (decode "watch frame is not valid UTF-8")
  text_events (some line) = parse_watch_line line >>= λ event. ok (event ∷ [])

  abbrev pub line_events : List ℕ → Result StreamError (List WatchEvent)
  line_events [] = ok []
  line_events (b ∷ bs) = text_events (d.from_utf8 (b ∷ bs))

  -- The events of complete lines; an empty line has none.
  unfoldable pub decode_all : List (List ℕ) → Result StreamError (List WatchEvent)
  decode_all [] = ok []
  decode_all (line ∷ lines) = do
    events ← line_events (drop_cr line)
    more ← decode_all lines
    ok (events ++ more)

  -- What the stream yields, and the error that ends it.
  abbrev pub Yield : Type 0
  Yield = List WatchEvent × Result StreamError (Unit {0})

  abbrev pub last_event : Result StreamError WatchEvent → Yield
  last_event (err e) = ([], err e)
  last_event (ok event) = (event ∷ [], ok tt)

  -- What is left in the buffer at the end of the input is a last frame.
  unfoldable pub trailing : List ℕ → Yield
  trailing [] = ([], ok tt)
  trailing (b ∷ bs) =
      let line = d.from_utf8_lossy (drop_ends (b ∷ bs)) in
      if str_eq line "" then ([], ok tt) else last_event (parse_watch_line line)

  abbrev pub yield_then : Result StreamError (List WatchEvent) → Yield → Yield
  yield_then (err e) later = ([], err e)
  yield_then (ok events) (more, outcome) = (events ++ more, outcome)

  -- The loop over the chunks; an error of the transport ends it.
  unfoldable pub decode_watch_stream : List ℕ → List (Result String (List ℕ)) → Yield
  decode_watch_stream buf [] = trailing buf
  decode_watch_stream buf (err e ∷ chunks) = ([], err (decode e))
  decode_watch_stream buf (ok chunk ∷ chunks) =
      let (lines, rest) = split_lines (buf ++ chunk) in
      yield_then (decode_all lines) (decode_watch_stream rest chunks)
