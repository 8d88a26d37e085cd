-- ===== src/Ref/Claimed.antt =====
-- ClaimServices on an API server that takes every patch.
use kubeflow_controller.Common.{
  Bool, true, false, none, List, [], ◌∷◌, ◌++◌, ◌≡◌, inl, refl, sym, ap, ◌∙◌, if◌then◌else◌,
}
use mathlib.Core.List.{append-nil, append_assoc}
use mathlib.Core.Path.{ap₂}
use kubeflow_controller.Common.Outcome.{ok}
use kubeflow_controller.Common.Go.{◌>>=◌, lift}
use kubeflow_controller.Api.{Service}
use kubeflow_controller.Platform.Machinery.{Machinery, MachineryLaws}
use kubeflow_controller.Platform.Cluster.{Cluster, Session}
use kubeflow_controller.Ref.Base.{RefManager}
use kubeflow_controller.Ref.Service.{
  adopt_service, release_service, matches, claim_one, claim_loop, claim_services, collect,
}
use kubeflow_controller.Ref.Verdict.{is_claimed, patches, carry_out, claim_object_lem}
use kubeflow_controller.Ref.Spec.{
  sent, verdict_of, claimed_of, patches_of, sent-append, sent-calls, Accepts, Willing,
}
use kubeflow_controller.Ref.Carried.{At, either_manager, verdict-carried}

module _ (m : Machinery) (cluster : Cluster) where
  module _ (accepts : Accepts m cluster) (rm : RefManager cluster)
      (willing : Willing m cluster rm) where
    -- Each service has its verdict carried out, whatever came before it.
    claim_one-carried :
        (filters : List (Service → Bool)) (service : Service) (now : RefManager cluster)
        (s : Session cluster)
        → At m cluster accepts rm willing now
        → (now' : RefManager cluster) × At m cluster accepts rm willing now'
          × (claim_one m cluster filters service (now, s) ≡ (
            ok (is_claimed (verdict_of m cluster rm filters service)),
            (
              now',
              sent m cluster
                  (patches m cluster rm service.metadata (verdict_of m cluster rm filters service))
                  s,
            ),
          ))
    unfolding claim_one matches
    claim_one-carried filters service now s at =
        let obj = service.metadata in
        let (now', at', e) =
          verdict-carried m cluster accepts rm willing (verdict_of m cluster rm filters service) obj
            now s at in
        let same : verdict_of m cluster now filters service
            ≡ verdict_of m cluster rm filters service =
          either_manager m cluster accepts rm willing
            (λ now.
              verdict_of m cluster now filters service ≡ verdict_of m cluster rm filters service)
            now at refl refl in
        (
          now',
          at',
          claim_object_lem m cluster obj (matches m cluster now filters service)
                (adopt_service m cluster obj) (release_service m cluster obj) (now, s)
              ∙ ap
                  (λ v.
                    carry_out m cluster v (adopt_service m cluster obj)
                      (release_service m cluster obj) (now, s))
                  same
              ∙ e,
        )

    loop-step :
        (filters : List (Service → Bool)) (service : Service) (services claimed : List Service)
        (now now' : RefManager cluster) (s s' : Session cluster) (b : Bool)
        → claim_one m cluster filters service (now, s) ≡ (ok b, (now', s'))
        → claim_loop m cluster filters (service ∷ services) (claimed, []) (now, s)
          ≡ claim_loop m cluster filters services
              (if b then claimed ++ service ∷ [] else claimed, [])
              (now', s')
    unfolding claim_loop
    loop-step filters service services claimed now now' s s' b e =
        ap
          (λ r.
            (lift (collect m cluster service (claimed, []) r.0)
                >>= claim_loop m cluster filters services)
              r.1)
          e

    claimed_more :
        (b : Bool) (service : Service) (claimed rest : List Service)
        → (if b then claimed ++ service ∷ [] else claimed) ++ rest
          ≡ claimed ++ (if b then service ∷ rest else rest)
    claimed_more true service claimed rest = append_assoc claimed (service ∷ []) rest
    claimed_more false service claimed rest = refl

    claim_loop-carried :
        (filters : List (Service → Bool)) (services claimed : List Service)
        (now : RefManager cluster) (s : Session cluster)
        → At m cluster accepts rm willing now
        → (now' : RefManager cluster) × (claim_loop m cluster filters services
              (claimed, [])
              (now, s)
            ≡ (
              ok (claimed ++ claimed_of m cluster rm filters services, []),
              (now', sent m cluster (patches_of m cluster rm filters services) s),
            ))
    unfolding claim_loop
    claim_loop-carried filters [] claimed now s at =
        (now, ap (λ xs. (ok (xs, []), (now, s))) (sym (append-nil claimed)))
    claim_loop-carried filters (service ∷ services) claimed now s at =
        let v = verdict_of m cluster rm filters service in
        let (now1, at1, one) = claim_one-carried filters service now s at in
        let s1 = sent m cluster (patches m cluster rm service.metadata v) s in
        let (now2, rest) =
          claim_loop-carried filters services
            (if is_claimed v then claimed ++ service ∷ [] else claimed) now1 s1 at1 in
        (
          now2,
          loop-step filters service services claimed now now1 s s1 (is_claimed v) one
              ∙ rest
              ∙ ap₂ (λ xs end. (ok (xs, []), (now2, end)))
                  (claimed_more (is_claimed v) service claimed
                    (claimed_of m cluster rm filters services))
                  (sym (
                    sent-append m cluster (patches m cluster rm service.metadata v)
                      (patches_of m cluster rm filters services) s)),
        )

    pub claim_services-sent :
        MachineryLaws m
        → (filters : List (Service → Bool)) (services : List Service) (s : Session cluster)
        → (now : RefManager cluster) × (claim_services m cluster services filters (rm, s) ≡ (
          ok (claimed_of m cluster rm filters services, none),
          (now, sent m cluster (patches_of m cluster rm filters services) s),
        ))
    unfolding claim_services
    claim_services-sent laws filters services s =
        let (now, e) = claim_loop-carried filters services [] rm s (inl refl) in
        (
          now,
          rw (e, claim_services)
              (ap
                (λ none_at_all. (
                  ok (claimed_of m cluster rm filters services, none_at_all),
                  (now, sent m cluster (patches_of m cluster rm filters services) s),
                ))
                laws.aggregate_none),
        )

    -- On an API server that takes every patch, and when the check whether the job may still adopt always
    -- agrees, ClaimServices of a new manager returns no error. It claims exactly the services whose verdict is to keep or to adopt them, in their order, and
    -- its requests are exactly the patches that the verdicts call for, in that order: an adopted service
    -- is given the job's controllerRef, a released one loses it.
    pub claim_services_lem :
        MachineryLaws m
        → (filters : List (Service → Bool)) (services : List Service) (s : Session cluster)
        → let (r, (_, s')) = claim_services m cluster services filters (rm, s) in
          (r ≡ ok (claimed_of m cluster rm filters services, none))
          × (s'.calls ≡ s.calls ++ patches_of m cluster rm filters services)
    claim_services_lem laws filters services s =
        let (now, e) = claim_services-sent laws filters services s in
        (
          ap (λ x. x.0) e,
          ap (λ x. x.1.1.calls) e
              ∙ sent-calls m cluster (patches_of m cluster rm filters services) s,
        )
