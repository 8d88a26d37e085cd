-- ===== src/Ref/Quiet.antt =====
-- The services for which a claim asks nothing of the API server.
use kubeflow_controller.Common.{
  Bool, true, false, none, some, List, [], ◌∷◌, ◌++◌, ◌≡◌, ◌⊎◌, inl, inr, refl, arith, str_eq, ◌&&◌,
  if◌then◌else◌, Bool-cases, if_true, if_false, ap, sym, ◌∙◌,
}
use mathlib.Core.List.{append-nil, append_assoc}
use kubeflow_controller.Common.Outcome.{Outcome, ok, Err}
use kubeflow_controller.Common.Go.{Go}
use kubeflow_controller.Api.{ObjectMeta, Service}
use kubeflow_controller.Platform.Machinery.{Machinery, MachineryLaws}
use kubeflow_controller.Platform.Cluster.{Cluster}
use kubeflow_controller.Ref.Base.{RefManager, State, is_deleting, claim_object}
use kubeflow_controller.Ref.Service.{
  adopt_service, release_service, matches, claim_one, claim_loop, claim_services,
}

module _ (m : Machinery) (cluster : Cluster) where
  -- Whether the controller of an object, if it has one, is the manager's own.
  abbrev pub is_owned : RefManager cluster → ObjectMeta → Bool
  is_owned rm obj = elim (m.get_controller_of obj) [
    | none ↦ false
    | some ref ↦ str_eq ref.uid rm.controller.uid
  ]

  abbrev pub is_orphan : ObjectMeta → Bool
  is_orphan obj = elim (m.get_controller_of obj) [ none ↦ true | some _ ↦ false ]

  -- Nothing is to be reconciled: the job is being deleted, or the object is a stranger's, or the
  -- job's and selected, or nobody's and not selected, or nobody's and being deleted.
  abbrev pub IsQuiet : RefManager cluster → ObjectMeta → Bool → Type 0
  IsQuiet rm obj selected =
      (is_deleting m cluster rm.controller ≡ true)
      ⊎ ((is_orphan obj ≡ false) × (is_owned rm obj ≡ false))
      ⊎ ((is_owned rm obj ≡ true) × (selected ≡ true))
      ⊎ ((is_orphan obj ≡ true) × (selected ≡ false))
      ⊎ ((is_orphan obj ≡ true) × (is_deleting m cluster obj ≡ true))

  -- A quiet object is claimed exactly if it is the job's and selected; it is neither adopted nor
  -- released, so no request is made and the manager is as before.
  pub claim_object_quiet :
      (obj : ObjectMeta) (selected : Bool) (adopt release : Go (State m cluster) (Unit {0}))
      (s : State m cluster)
      → IsQuiet s.0 obj selected
      → claim_object m cluster obj (λ _. selected) adopt release s
        ≡ (ok (is_owned s.0 obj && selected), s)
  unfolding claim_object
  claim_object_quiet obj selected adopt release s h = ground arith

  abbrev pub keeps : RefManager cluster → List (Service → Bool) → Service → Bool
  keeps rm filters service = is_owned rm service.metadata && matches m cluster rm filters service

  -- The services that are the job's and selected, in their order.
  abbrev pub kept : RefManager cluster → List (Service → Bool) → List Service → List Service
  kept rm filters [] = []
  kept rm filters (service ∷ services) =
      if keeps rm filters service
      then service ∷ kept rm filters services
      else kept rm filters services

  abbrev pub AllQuiet : RefManager cluster → List (Service → Bool) → List Service → Type 0
  AllQuiet rm filters [] = Unit
  AllQuiet rm filters (service ∷ services) =
      IsQuiet rm service.metadata (matches m cluster rm filters service)
      × AllQuiet rm filters services

  claim_one_quiet :
      (filters : List (Service → Bool)) (service : Service) (s : State m cluster)
      → IsQuiet s.0 service.metadata (matches m cluster s.0 filters service)
      → claim_one m cluster filters service s ≡ (ok (keeps s.0 filters service), s)
  unfolding claim_one
  claim_one_quiet filters service s h =
      claim_object_quiet service.metadata (matches m cluster s.0 filters service)
        (adopt_service m cluster service.metadata) (release_service m cluster service.metadata) s h

  claim_loop_step :
      (filters : List (Service → Bool)) (service : Service) (services claimed : List Service)
      (errs : List Err) (s : State m cluster) {b : Bool}
      → claim_one m cluster filters service s ≡ (ok b, s)
      → claim_loop m cluster filters (service ∷ services) (claimed, errs) s
        ≡ claim_loop m cluster filters services
            (if b then claimed ++ service ∷ [] else claimed, errs)
            s
  unfolding claim_loop
  claim_loop_step filters service services claimed errs s e =
      rw (claim_loop, ap (λ r. r.0) e, ap (λ r. r.1) e) refl

  claim_loop_quiet :
      (filters : List (Service → Bool)) (services claimed : List Service) (errs : List Err)
      (s : State m cluster)
      → AllQuiet s.0 filters services
      → claim_loop m cluster filters services (claimed, errs) s
        ≡ (ok (claimed ++ kept s.0 filters services, errs), s)
  unfolding claim_loop
  claim_loop_quiet filters [] claimed errs s h = rw (append-nil claimed) refl
  claim_loop_quiet filters (service ∷ services) claimed errs s h =
      let rest = kept s.0 filters services in
      let one = claim_one_quiet filters service s h.0 in
      let claims : List Service → Outcome (List Service × List Err) × State m cluster =
        λ (xs : List Service). (ok (xs, errs), s) in
      elim (Bool-cases (keeps s.0 filters service)) [
        | inl e ↦
            claim_loop_step filters service services claimed errs s (one ∙ ap (λ b. (ok b, s)) e)
            ∙ claim_loop_quiet filters services (claimed ++ service ∷ []) errs s h.1
            ∙ ap claims (
                append_assoc claimed (service ∷ []) rest
                ∙ ap (λ xs. claimed ++ xs) (sym (if_true (service ∷ rest) rest e)))
        | inr e ↦
            claim_loop_step filters service services claimed errs s (one ∙ ap (λ b. (ok b, s)) e)
            ∙ claim_loop_quiet filters services claimed errs s h.1
            ∙ ap claims (ap (λ xs. claimed ++ xs) (sym (if_false (service ∷ rest) rest e)))
      ]

  -- Where every service is quiet, ClaimServices makes no request, returns no error, and claims just
  -- the services that are the job's and selected, in their order.
  claim_services_quiet :
      MachineryLaws m
      → (filters : List (Service → Bool)) (services : List Service) (s : State m cluster)
      → AllQuiet s.0 filters services
      → claim_services m cluster services filters s ≡ (ok (kept s.0 filters services, none), s)
  unfolding claim_services
  claim_services_quiet laws filters services s h =
      rw (claim_loop_quiet filters services [] [] s h, claim_services) (rw laws.aggregate_none refl)
