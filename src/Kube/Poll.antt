-- ===== src/Kube/Poll.antt =====
-- The end of a round of the two polls of subnet/kube/acquire.rs, and the retries of the patch.
use Prim.Native.String.{String}
use flannel_rust.Prelude.{
  ℕ, ◌-◌, min, leb, Bool, true, false, Option, none, some, List, [], ◌∷◌, if◌then◌else◌,
}
use flannel_rust.Prelude.Result.{Result, ok, err}
use flannel_rust.Kube.{AnnotationMap, KubeError, canceled, deadline_exceeded, still_waiting}

-- Whether the context is cancelled after an attempt, the time then, and whether the sleep ends before a
-- cancellation.
pub record Pause : Type 0 where
  pub is_cancelled : Bool
  pub now : ℕ
  pub woke : Bool

abbrev pub poll_timeout : ℕ
poll_timeout = 30000

-- `POLL_INTERVAL.min(deadline - now)`
abbrev pub sleep_of : ℕ → ℕ
sleep_of now = min 3000 (poll_timeout - now)

-- The error on which a poll gives up after an attempt that failed.
unfoldable pub give_up : String → Pause → Option KubeError
give_up op pause =
    if pause.is_cancelled
    then some (canceled op)
    else if leb poll_timeout pause.now
    then some (deadline_exceeded op)
    else if pause.woke
    then none
    else some (canceled op)

abbrev pub patch_step :
    Bool → Option KubeError → Result KubeError (Unit {0}) → Result KubeError (Unit {0})
patch_step true gave_up later = ok tt
patch_step false (some e) later = err e
patch_step false none later = later

-- What a round of the retries meets: the server, which takes a patch or not, and the pause after it.
abbrev pub PatchRound : Type 0
PatchRound = (AnnotationMap → Bool) × Pause

unfoldable pub patch_with_retry : AnnotationMap → List PatchRound → Result KubeError (Unit {0})
patch_with_retry patch [] = err still_waiting
patch_with_retry patch ((takes, pause) ∷ rounds) =
    patch_step (takes patch) (give_up "patch node" pause) (patch_with_retry patch rounds)
