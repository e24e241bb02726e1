-- ===== src/Kube/Acquire/Polls.antt =====
-- The polls end: eleven rounds of a clock that runs are enough for the 30 seconds.
use Prim.Native.String.{String}
use flannel_rust.Prelude.{
  ℕ, ◌+◌, ◌*◌, ◌≤◌, ◌<◌, ◌≡◌, ◌≢◌, refl, arith, leb, Bool, true, false, Option, none, some, List,
  [], ◌∷◌, All, map, length, if◌then◌else◌,
}
use flannel_rust.Prelude.Result.{Result, ok, err, >>=-avoids}
use text.Mathlib.Text.{◌==◌ as str_eq}
use flannel_rust.Ip.Parse.{IpParseError, contains_char}
use flannel_rust.Kube.Events.{colon}
use flannel_rust.Kube.{
  or_empty, parse_net4, parse_net6, lift, Node, AnnotationMap, KubeError, canceled,
  deadline_exceeded, still_waiting,
}
use flannel_rust.Kube.Poll.{Pause, sleep_of, give_up, patch_step, PatchRound, patch_with_retry}
use flannel_rust.Kube.Acquire.{
  KubeSubnetManager, Look, Cidrs, fetch_node, take_cidrs, single_cidr, cidrs_by_count,
  acquire_pod_cidrs, cidrs_ready, attempt, if_ready, wait_step, wait_for_node_with_cidrs,
}

-- A clock that has reached (t): the attempt of each round ends then or later, and a sleep takes its time.
abbrev pub IsClock : ℕ → List Pause → Type 0
IsClock t [] = Unit
IsClock t (pause ∷ pauses) = (t ≤ pause.now) × IsClock (pause.now + sleep_of pause.now) pauses

abbrev pub Goes : String → Pause → Type 0
Goes op pause = give_up op pause ≡ none

Goes-now : (op : String) (pause : Pause) → Goes op pause → pause.now < 30000
unfolding give_up
Goes-now op pause h = ground arith

-- The pauses of the rounds that all fail, without giving up.
few_pauses :
    (op : String) (pauses : List Pause) (t : ℕ)
    → IsClock t pauses
    → All (Goes op) pauses
    → 0 < length pauses
    → t + 3000 * length pauses < 33000
few_pauses op [] t c g h = absurd (omega arith)
few_pauses op (pause ∷ []) t c g h = omega (arith, c.0, Goes-now op pause g.0)
few_pauses op (pause ∷ q ∷ qs) t c g h =
    let later = few_pauses op (q ∷ qs) (pause.now + sleep_of pause.now) c.1 g.1 (omega arith) in
    omega (arith, later, c.0, Goes-now op pause g.0)

enough_pauses :
    (op : String) (pauses : List Pause)
    → IsClock 0 pauses
    → 11 ≤ length pauses
    → All (Goes op) pauses
    → ⊥
enough_pauses op pauses c h g = omega (arith, few_pauses op pauses 0 c g (omega arith))

gave_up :
    (op : String) (off late woke : Bool)
    → (if off
        then some (canceled op)
        else if late
        then some (deadline_exceeded op)
        else if woke
        then none
        else some (canceled op))
      ≢ some still_waiting
gave_up op true late woke = λ h. cc
gave_up op false true woke = λ h. cc
gave_up op false false true = λ h. cc
gave_up op false false false = λ h. cc

give_up-error : (op : String) (pause : Pause) → give_up op pause ≢ some still_waiting
unfolding give_up
give_up-error op pause = gave_up op pause.is_cancelled (leb 30000 pause.now) pause.woke

patch_step-waits :
    (b : Bool) (o : Option KubeError) (later : Result KubeError (Unit {0}))
    → o ≢ some still_waiting
    → patch_step b o later ≡ err still_waiting
    → (o ≡ none) × (later ≡ err still_waiting)
patch_step-waits true o later n h = cc
patch_step-waits false (some e) later n h = absurd (n cc)
patch_step-waits false none later n h = (refl, h)

abbrev patch_pause : PatchRound → Pause
patch_pause (takes, pause) = pause

patch_with_retry-waits :
    (patch : AnnotationMap) (rounds : List PatchRound)
    → patch_with_retry patch rounds ≡ err still_waiting
    → All (Goes "patch node") (map patch_pause rounds)
unfolding patch_with_retry
patch_with_retry-waits patch [] h = tt
patch_with_retry-waits patch ((takes, pause) ∷ rounds) h =
    let later =
      patch_step-waits (takes patch) (give_up "patch node" pause) (patch_with_retry patch rounds)
        (give_up-error "patch node" pause) h in
    (later.0, patch_with_retry-waits patch rounds later.1)

-- On a clock that runs, the retries of a patch end within eleven rounds, whatever the server and the
-- context do.
pub patch_with_retry_ends :
    (patch : AnnotationMap) (rounds : List PatchRound)
    → IsClock 0 (map patch_pause rounds)
    → 11 ≤ length (map patch_pause rounds)
    → patch_with_retry patch rounds ≢ err still_waiting
patch_with_retry_ends patch rounds c h = λ waits.
    enough_pauses "patch node" (map patch_pause rounds) c h
      (patch_with_retry-waits patch rounds waits)

lifted : {A : Type 0} (r : Result IpParseError A) → lift r ≢ err still_waiting
lifted (ok a) = λ h. cc
lifted (err e) = λ h. cc

if-avoids :
    {A : Type 0} {e : KubeError} (b : Bool) (x y : Result KubeError A)
    → x ≢ err e
    → y ≢ err e
    → (if b then x else y) ≢ err e
if-avoids true x y h k = h
if-avoids false x y h k = k

ready : (b : Bool) (node : Node) → (if b then some (ok node) else none) ≢ some (err still_waiting)
ready true node = λ h. cc
ready false node = λ h. cc

wait_step-waits :
    (o : Option (Result KubeError Node)) (e : Option KubeError) (later : Result KubeError Node)
    → o ≢ some (err still_waiting)
    → e ≢ some still_waiting
    → wait_step o e later ≡ err still_waiting
    → (e ≡ none) × (later ≡ err still_waiting)
wait_step-waits (some r) e later n m h = absurd (n cc)
wait_step-waits none (some x) later n m h = absurd (m cc)
wait_step-waits none none later n m h = (refl, h)

abbrev look_pause : Look × Pause → Pause
look_pause (look, pause) = pause

module _ (mgr : KubeSubnetManager) where
  take_cidrs-avoids :
      (cs : List String) (found : Cidrs) → take_cidrs mgr cs found ≢ err still_waiting
  unfolding take_cidrs
  take_cidrs-avoids [] found = λ h. cc
  take_cidrs-avoids (c ∷ cs) (found4, found6) =
      if-avoids (contains_char colon c) _ _
        (>>=-avoids still_waiting (parse_net6 mgr.parsers c) _ (lifted _)
          (λ n. take_cidrs-avoids cs (found4, some n)))
        (>>=-avoids still_waiting (parse_net4 mgr.parsers c) _ (lifted _)
          (λ n. take_cidrs-avoids cs (some n, found6)))

  cidrs_by_count-avoids :
      (cidr : Option String) (cs : List String) → cidrs_by_count mgr cidr cs ≢ err still_waiting
  unfolding single_cidr
  cidrs_by_count-avoids cidr [] =
      let s = or_empty cidr in
      if-avoids (contains_char colon s) _ _
        (>>=-avoids still_waiting (parse_net6 mgr.parsers s) _ (lifted _) (λ n h. cc))
        (if-avoids (str_eq s "") _ _ (λ h. cc)
          (>>=-avoids still_waiting (parse_net4 mgr.parsers s) _ (lifted _) (λ n h. cc)))
  cidrs_by_count-avoids cidr (c ∷ []) = take_cidrs-avoids (c ∷ []) (none, none)
  cidrs_by_count-avoids cidr (c ∷ d ∷ []) = take_cidrs-avoids (c ∷ d ∷ []) (none, none)
  cidrs_by_count-avoids cidr (c ∷ d ∷ e ∷ cs) = λ h. cc

  if_ready-avoids :
      (node : Node) (r : Result KubeError Cidrs)
      → r ≢ err still_waiting
      → if_ready mgr node r ≢ some (err still_waiting)
  if_ready-avoids node (ok found) n = ready (cidrs_ready mgr found) node
  if_ready-avoids node (err e) n = λ h. n cc

  attempt-avoids : (o : Option Node) → attempt mgr o ≢ some (err still_waiting)
  unfolding acquire_pod_cidrs
  attempt-avoids none = λ h. cc
  attempt-avoids (some node) =
      if_ready-avoids node (acquire_pod_cidrs mgr node)
        (cidrs_by_count-avoids node.spec.pod_cidr node.spec.pod_cidrs)

  wait_for_node_with_cidrs-waits :
      (rounds : List (Look × Pause))
      → wait_for_node_with_cidrs mgr rounds ≡ err still_waiting
      → All (Goes "get node") (map look_pause rounds)
  unfolding wait_for_node_with_cidrs
  wait_for_node_with_cidrs-waits [] h = tt
  wait_for_node_with_cidrs-waits ((look, pause) ∷ rounds) h =
      let later =
        wait_step-waits (attempt mgr (fetch_node mgr look)) (give_up "get node" pause)
          (wait_for_node_with_cidrs mgr rounds) (attempt-avoids (fetch_node mgr look))
          (give_up-error "get node" pause) h in
      (later.0, wait_for_node_with_cidrs-waits rounds later.1)

  -- On a clock that runs, the wait for the own node ends within eleven rounds, whatever the store, the
  -- server and the context do.
  pub wait_for_node_with_cidrs_ends :
      (rounds : List (Look × Pause))
      → IsClock 0 (map look_pause rounds)
      → 11 ≤ length (map look_pause rounds)
      → wait_for_node_with_cidrs mgr rounds ≢ err still_waiting
  wait_for_node_with_cidrs_ends rounds c h = λ waits.
      enough_pauses "get node" (map look_pause rounds) c h
        (wait_for_node_with_cidrs-waits rounds waits)
