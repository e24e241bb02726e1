-- ===== src/Kube/Acquire/Ready.antt =====
-- The wait for the own node returns it with the pod CIDRs that the configuration asks for.
use flannel_rust.Prelude.{
  ◌≡◌, refl, ap, subst, Bool, true, false, Option, none, some, List, [], ◌∷◌, if◌then◌else◌,
}
use flannel_rust.Prelude.Result.{Result, ok, err, err≢ok}
use flannel_rust.Kube.{Node, KubeError, still_waiting}
use flannel_rust.Kube.Poll.{Pause, give_up}
use flannel_rust.Kube.Acquire.{
  KubeSubnetManager, Cidrs, Look, fetch_node, acquire_pod_cidrs, cidrs_ready, attempt, if_ready,
  wait_step, wait_for_node_with_cidrs,
}

some_inj : {a b : Result KubeError Node} → some a ≡ some b → a ≡ b
some_inj h = cc

abbrev now_ready : Node → Option (Result KubeError Node)
now_ready n = some (ok n)

decided :
    (b : Bool) (n node : Node)
    → (if b then now_ready n else none) ≡ some (ok node)
    → (n ≡ node) × (b ≡ true)
decided true n node h = (cc, refl)
decided false n node h = cc

module _ (mgr : KubeSubnetManager) where
  -- A node whose pod CIDRs are ready.
  abbrev pub IsReady : Node → Type 0
  IsReady node =
      (found : Cidrs) × (acquire_pod_cidrs mgr node ≡ ok found) × (cidrs_ready mgr found ≡ true)

  if_ready-ok :
      (n node : Node) (r : Result KubeError Cidrs)
      → if_ready mgr n r ≡ some (ok node)
      → (n ≡ node) × ((found : Cidrs) × (r ≡ ok found) × (cidrs_ready mgr found ≡ true))
  if_ready-ok n node (ok found) h =
      let got = decided (cidrs_ready mgr found) n node h in (got.0, (found, refl, got.1))
  if_ready-ok n node (err e) h = absurd (err≢ok e node (some_inj h))

  attempt-ok : (o : Option Node) (node : Node) → attempt mgr o ≡ some (ok node) → IsReady node
  attempt-ok none node h = cc
  attempt-ok (some n) node h =
      let got = if_ready-ok n node (acquire_pod_cidrs mgr n) h in subst IsReady got.0 got.1

  wait_step-ok :
      (o : Option (Result KubeError Node)) (e : Option KubeError) (later : Result KubeError Node)
      (node : Node)
      → wait_step o e later ≡ ok node
      → (o ≡ some (ok node) → IsReady node)
      → (later ≡ ok node → IsReady node)
      → IsReady node
  wait_step-ok (some r) e later node h now after = now (ap some h)
  wait_step-ok none (some x) later node h now after = absurd (err≢ok x node h)
  wait_step-ok none none later node h now after = after h

  pub wait_for_node_with_cidrs-IsReady :
      (rounds : List (Look × Pause)) (node : Node)
      → wait_for_node_with_cidrs mgr rounds ≡ ok node
      → IsReady node
  unfolding wait_for_node_with_cidrs
  wait_for_node_with_cidrs-IsReady [] node h = absurd (err≢ok still_waiting node h)
  wait_for_node_with_cidrs-IsReady ((look, pause) ∷ rounds) node h =
      wait_step-ok (attempt mgr (fetch_node mgr look)) (give_up "get node" pause)
        (wait_for_node_with_cidrs mgr rounds) node h (attempt-ok (fetch_node mgr look) node)
        (wait_for_node_with_cidrs-IsReady rounds node)
