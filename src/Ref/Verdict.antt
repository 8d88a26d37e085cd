-- ===== src/Ref/Verdict.antt =====
-- What becomes of an object that is claimed: the specification of claimObject.
use kubeflow_controller.Common.{
  Bool, true, false, none, some, List, [], ◌∷◌, ◌≡◌, arith, str_eq, if◌then◌else◌,
}
use kubeflow_controller.Common.Outcome.{ok}
use kubeflow_controller.Common.Go.{Go}
use kubeflow_controller.Api.{ObjectMeta}
use kubeflow_controller.Platform.Machinery.{Machinery}
use kubeflow_controller.Platform.Cluster.{Cluster, Call, patch_service}
use kubeflow_controller.Ref.Base.{RefManager, State, is_deleting, claim_object, unless_missing}
use kubeflow_controller.Ref.Service.{add_controller_patch, delete_owner_ref_patch}

-- It is the manager's already, it is left alone, it becomes the manager's, or it ceases to be.
pub data Verdict : Type 0 where
  keeps leaves adopts releases : Verdict

abbrev pub is_claimed : Verdict → Bool
is_claimed keeps = true
is_claimed leaves = false
is_claimed adopts = true
is_claimed releases = false

module _ (m : Machinery) (cluster : Cluster) where
  -- A selected orphan is adopted unless it or the job is being deleted; the manager's own object is
  -- kept if it is selected, and released if not, unless the job is being deleted.
  abbrev pub verdict : RefManager cluster → ObjectMeta → Bool → Verdict
  verdict rm obj selected = elim (m.get_controller_of obj) [
    | none ↦
        if is_deleting m cluster rm.controller
        then leaves
        else if is_deleting m cluster obj
        then leaves
        else if selected
        then adopts
        else leaves
    | some ref ↦
        if str_eq ref.uid rm.controller.uid
        then if selected
          then keeps
          else if is_deleting m cluster rm.controller
          then leaves
          else releases
        else leaves
  ]

  -- The request that carries the verdict out, if it takes one.
  abbrev pub patches : RefManager cluster → ObjectMeta → Verdict → List Call
  patches rm obj keeps = []
  patches rm obj leaves = []
  patches rm obj adopts =
      patch_service obj.namespace obj.name (add_controller_patch m cluster rm obj) ∷ []
  patches rm obj releases =
      patch_service obj.namespace obj.name (delete_owner_ref_patch m cluster rm obj) ∷ []

  abbrev pub carry_out :
      Verdict
      → Go (State m cluster) (Unit {0})
      → Go (State m cluster) (Unit {0})
      → Go (State m cluster) Bool
  carry_out keeps adopt release s = (ok true, s)
  carry_out leaves adopt release s = (ok false, s)
  carry_out adopts adopt release s = unless_missing m cluster true (adopt s)
  carry_out releases adopt release s = unless_missing m cluster false (release s)

  -- claimObject carries the verdict out.
  pub claim_object_lem :
      (obj : ObjectMeta) (selected : Bool) (adopt release : Go (State m cluster) (Unit {0}))
      (s : State m cluster)
      → claim_object m cluster obj (λ _. selected) adopt release s
        ≡ carry_out (verdict s.0 obj selected) adopt release s
  unfolding claim_object
  claim_object_lem obj selected adopt release s = ground arith
