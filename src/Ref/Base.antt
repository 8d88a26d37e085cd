-- ===== src/Ref/Base.antt =====
-- pkg/controller/ref/base.go. A method's state is the manager and the session with the cluster.
use kubeflow_controller.Common.{
  String, Bool, true, false, Option, none, some, str_eq, not, ◌||◌, if◌then◌else◌,
}
use kubeflow_controller.Common.Map.{Map}
use kubeflow_controller.Common.Outcome.{Outcome, ok, fail, panic, Err}
use kubeflow_controller.Common.Go.{Go}
use kubeflow_controller.Api.{ObjectMeta, OwnerReference}
use kubeflow_controller.Platform.Machinery.{Machinery}
use kubeflow_controller.Platform.Cluster.{Cluster, Session, result}

-- The manager's canAdoptFunc reads the cluster, and its sync.Once is `can_adopt_once`. The last two
-- fields are of ServiceControllerRefManager: the controllerKind's group version and kind.
pub record RefManager (cluster : Cluster) : Type 0 where
  pub controller : ObjectMeta
  pub selector : Map String → Bool
  pub can_adopt_err : Option Err
  pub can_adopt_once : Bool
  pub can_adopt_func : Option (cluster.World → Outcome (Unit {0}))
  pub controller_group_version : String
  pub controller_kind : String

module _ (m : Machinery) (cluster : Cluster) where
  abbrev pub State : Type 0
  State = RefManager cluster × Session cluster

  -- The first call of canAdoptFunc settles the answer of every later one.
  abbrev pub settle :
      Outcome (Unit {0}) → RefManager cluster → Outcome (Unit {0}) × RefManager cluster
  settle (ok _) rm = (ok tt, record rm { can_adopt_once = true; can_adopt_err = none })
  settle (fail e) rm = (fail e, record rm { can_adopt_once = true; can_adopt_err = some e })
  settle (panic p) rm = (panic p, record rm { can_adopt_once = true })

  abbrev pub run_once :
      Option (cluster.World → Outcome (Unit {0}))
      → RefManager cluster
      → Session cluster
      → Outcome (Unit {0}) × RefManager cluster
  run_once none rm s = (result rm.can_adopt_err, record rm { can_adopt_once = true })
  run_once (some f) rm s = settle (f s.world) rm

  unfoldable pub can_adopt : Go State (Unit {0})
  can_adopt (rm, s) =
      if rm.can_adopt_once
      then (result rm.can_adopt_err, (rm, s))
      else (let (r, rm') = run_once rm.can_adopt_func rm s in (r, (rm', s)))

  abbrev pub is_deleting : ObjectMeta → Bool
  is_deleting meta = elim meta.deletion_timestamp [ none ↦ false | some _ ↦ true ]

  -- What `claimObject` makes of the answer of `release`, or of `adopt`: a missing object is no error.
  abbrev pub unless_missing : Bool → Outcome (Unit {0}) × State → Outcome Bool × State
  unless_missing done (ok _, s) = (ok done, s)
  unless_missing done (fail e, s) = (if m.is_not_found e then ok false else fail e, s)
  unless_missing done (panic p, s) = (panic p, s)

  -- An object with a controller: keep it, leave it, or release it.
  unfoldable pub claim_owned : OwnerReference → Bool → Go State (Unit {0}) → Go State Bool
  claim_owned ref matches release s =
      if not (str_eq ref.uid s.0.controller.uid)
      then (ok false, s)
      else if matches
      then (ok true, s)
      else if is_deleting s.0.controller
      then (ok false, s)
      else unless_missing false (release s)

  unfoldable pub claim_orphan : ObjectMeta → Bool → Go State (Unit {0}) → Go State Bool
  claim_orphan obj matches adopt s =
      if is_deleting s.0.controller || not matches
      then (ok false, s)
      else if is_deleting obj
      then (ok false, s)
      else unless_missing true (adopt s)

  unfoldable pub claim_object :
      ObjectMeta → (ObjectMeta → Bool) → Go State (Unit {0}) → Go State (Unit {0}) → Go State Bool
  unfolding claim_owned claim_orphan
  claim_object obj match adopt release = elim (m.get_controller_of obj) [
    | none ↦ claim_orphan obj (match obj) adopt
    | some ref ↦ claim_owned ref (match obj) release
  ]
