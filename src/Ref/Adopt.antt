-- ===== src/Ref/Adopt.antt =====
-- Adopting and releasing: when a request is made, and what its answer comes to.
use kubeflow_controller.Common.{
  Bool, true, false, none, some, [], ◌∷◌, ◌++◌, ◌≡◌, ◌⊎◌, inl, inr, refl, arith, if◌then◌else◌,
  Option-cases, ap,
}
use kubeflow_controller.Common.Outcome.{Outcome, ok, fail, panic, Err, errorf, cannot_adopt}
use kubeflow_controller.Common.Go.{Go}
use kubeflow_controller.Api.{ObjectMeta}
use kubeflow_controller.Platform.Machinery.{Machinery}
use kubeflow_controller.Platform.Cluster.{Cluster, Session, Call, patch_service, result, invoke}
use kubeflow_controller.Control.Create.{patch_the_service}
use kubeflow_controller.Ref.Base.{RefManager, State, can_adopt, claim_object}
use kubeflow_controller.Ref.Service.{
  adopt_service, adopt_if, release_service, add_controller_patch, delete_owner_ref_patch,
}
use kubeflow_controller.Ref.Quiet.{is_owned, is_orphan}

module _ (m : Machinery) (cluster : Cluster) where
  abbrev pub panics : Outcome (Unit {0}) → Bool
  panics (ok _) = false
  panics (fail _) = false
  panics (panic _) = true

  -- canAdoptFunc is called once at most: when canAdopt has answered without a panic, every later
  -- call gives the same answer, whatever the cluster has become, and changes nothing.
  can_adopt_once_lem :
      (s : State m cluster) (session : Session cluster)
      → panics (can_adopt m cluster s).0 ≡ false
      → let (r, (rm, _)) = can_adopt m cluster s in
        can_adopt m cluster (rm, session) ≡ (r, (rm, session))
  unfolding can_adopt
  can_adopt_once_lem s session h = ground arith

  -- An object is claimed only if it is selected, and it was the job's own or it was an
  -- orphan and adopting it succeeded.
  pub claim_object_sound :
      (obj : ObjectMeta) (selected : Bool) (adopt release : Go (State m cluster) (Unit {0}))
      (s : State m cluster)
      → (claim_object m cluster obj (λ _. selected) adopt release s).0 ≡ ok true
      → (selected ≡ true)
        × ((is_owned m cluster s.0 obj ≡ true)
            ⊎ ((is_orphan m cluster obj ≡ true) × ((adopt s).0 ≡ ok tt)))
  unfolding claim_object
  claim_object_sound obj selected adopt release s h = ground arith

  abbrev patched : Call → State m cluster → State m cluster
  patched c s =
      (s.0, record { world = (cluster.respond c s.1.world).1; calls = s.1.calls ++ c ∷ [] })

  -- If canAdopt agrees, AdoptService sends the patch that makes the job the service's controller, and
  -- returns the API server's answer.
  pub adopt_service_lem :
      (meta : ObjectMeta) (s : State m cluster) {rm : RefManager cluster}
      → can_adopt m cluster s ≡ (ok tt, (rm, s.1))
      → let call =
          patch_service meta.namespace meta.name (add_controller_patch m cluster rm meta) in
        adopt_service m cluster meta s
        ≡ (result (cluster.respond call s.1.world).0, patched call (rm, s.1))
  unfolding adopt_service adopt_if patch_the_service invoke add_controller_patch
  adopt_service_lem meta s h = ap (adopt_if m cluster meta) h

  -- If canAdopt refuses, nothing is sent, and the service cannot be adopted.
  pub adopt_service-refused :
      (meta : ObjectMeta) (s : State m cluster) {rm : RefManager cluster} {e : Err}
      → can_adopt m cluster s ≡ (fail e, (rm, s.1))
      → adopt_service m cluster meta s ≡ (fail (errorf cannot_adopt), (rm, s.1))
  unfolding adopt_service adopt_if
  adopt_service-refused meta s h = ap (adopt_if m cluster meta) h

  -- ReleaseService sends one patch; that the service is missing, or not the job's, is no error.
  pub release_service_lem :
      (meta : ObjectMeta) (s : State m cluster)
      → let call =
          patch_service meta.namespace meta.name (delete_owner_ref_patch m cluster s.0 meta) in
        let (answer, _) = cluster.respond call s.1.world in
        release_service m cluster meta s ≡ (
          elim answer [
            | none ↦ ok tt
            | some e ↦ if m.is_not_found e then ok tt else if m.is_invalid e then ok tt else fail e
          ],
          patched call s,
        )
  unfolding release_service
  release_service_lem meta s =
      elim (Option-cases
        (cluster.respond
          (patch_service meta.namespace meta.name (delete_owner_ref_patch m cluster s.0 meta))
          s.1.world).0) [ inl e ↦ rw e refl | inr (x, e) ↦ rw e refl ]
