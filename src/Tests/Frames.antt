-- ===== src/Tests/Frames.antt =====
-- Runs of crates/flannel-core/src/kube/watch.rs.
use Prim.Native.String.{String}
use text.Mathlib.Text.{◌==◌ as str_eq}
use flannel_rust.Prelude.{◌==◌, ℕ, ◌≡◌, refl, Option, some, List, [], ◌∷◌, map, if◌then◌else◌}
use flannel_rust.Prelude.Result.{ok, err}
use flannel_rust.Kube.Informer.{WatchEventType, WatchEvent, watch_added, watch_error}
use flannel_rust.Kube.Frames.{
  Decoder, gone, split_lines, parse_watch_line, is_expired, decode_all, decode_watch_stream,
  trailing,
}
use flannel_rust.Kube.Frames.Chunks.{joined, decode_watch_stream-chunks, decode_watch_stream-lost}
use flannel_rust.Tests.Kube.{node}

abbrev text_of : List ℕ → String
text_of [] = ""
text_of (b ∷ bs) = if b == 65 then "A" else "E"

abbrev frame_of : String → Option (WatchEventType × String)
frame_of s = if str_eq s "A" then some (watch_added, s) else some (watch_error, s)

abbrev decoder : Decoder
decoder = record {
  frame_of = frame_of;
  status_of = λ s. some (record { message = ""; reason = "Expired"; code = 0 });
  node_of = λ s. some node;
  from_utf8 = λ bs. some (text_of bs);
  from_utf8_lossy = text_of;
}

abbrev event : WatchEvent
event = record { event_type = watch_added; object = node }

-- A frame that is cut in two, an empty line, and a frame with no line end.
abbrev chunks : List (List ℕ)
chunks = (65 ∷ []) ∷ (66 ∷ 13 ∷ 10 ∷ 10 ∷ 65 ∷ []) ∷ []

chunks_run : decode_watch_stream decoder [] (map (λ c. ok c) chunks) ≡ (event ∷ event ∷ [], ok tt)
unfolding decode_watch_stream split_lines decode_all trailing parse_watch_line
chunks_run = refl

decode_watch_stream-chunks_example :
    ((decode_watch_stream decoder [] (map (λ c. ok c) chunks)).1
      ≡ (decode_watch_stream decoder [] (ok (joined chunks) ∷ [])).1)
    × ((decode_watch_stream decoder [] (map (λ c. ok c) chunks)).1 ≡ ok tt
        → (decode_watch_stream decoder [] (map (λ c. ok c) chunks)).0
          ≡ (decode_watch_stream decoder [] (ok (joined chunks) ∷ [])).0)
decode_watch_stream-chunks_example = decode_watch_stream-chunks decoder chunks

decode_watch_stream-lost_example :
    (decode_watch_stream decoder [] (ok (65 ∷ 10 ∷ []) ∷ ok (69 ∷ 10 ∷ []) ∷ [])
      ≡ (event ∷ [], err gone))
    × (decode_watch_stream decoder [] (ok (65 ∷ 10 ∷ 69 ∷ 10 ∷ []) ∷ []) ≡ ([], err gone))
unfolding split_lines decode_all parse_watch_line is_expired
decode_watch_stream-lost_example =
    decode_watch_stream-lost decoder (65 ∷ 10 ∷ []) (69 ∷ 10 ∷ []) (event ∷ []) gone refl refl refl
