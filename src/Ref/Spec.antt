-- ===== src/Ref/Spec.antt =====
-- What ClaimServices promises: which services are claimed, and which requests are made for it.
use kubeflow_controller.Common.{
  Bool, true, false, none, some, List, [], ◌∷◌, ◌++◌, ◌≡◌, refl, sym, ◌∙◌, if◌then◌else◌,
}
use mathlib.Core.List.{append-nil, append_assoc}
use kubeflow_controller.Common.Outcome.{Outcome, ok}
use kubeflow_controller.Api.{Service}
use kubeflow_controller.Platform.Machinery.{Machinery}
use kubeflow_controller.Platform.Cluster.{Cluster, Session, Call}
use kubeflow_controller.Ref.Base.{RefManager}
use kubeflow_controller.Ref.Service.{matches}
use kubeflow_controller.Ref.Verdict.{Verdict, is_claimed, verdict, patches}

module _ (m : Machinery) (cluster : Cluster) where
  -- The session after these requests.
  abbrev pub sent : List Call → Session cluster → Session cluster
  sent [] s = s
  sent (call ∷ more) s =
      sent more (record { world = (cluster.respond call s.world).1; calls = s.calls ++ call ∷ [] })

  -- The specification: the services that are claimed, in their order, and the requests for all.
  module _ (rm : RefManager cluster) (filters : List (Service → Bool)) where
    abbrev pub verdict_of : Service → Verdict
    verdict_of service =
        verdict m cluster rm service.metadata (matches m cluster rm filters service)

    abbrev pub claimed_of : List Service → List Service
    claimed_of [] = []
    claimed_of (service ∷ services) =
        if is_claimed (verdict_of service)
        then service ∷ claimed_of services
        else claimed_of services

    abbrev pub patches_of : List Service → List Call
    patches_of [] = []
    patches_of (service ∷ services) =
        patches m cluster rm service.metadata (verdict_of service) ++ patches_of services

  pub sent-append :
      (xs ys : List Call) (s : Session cluster) → sent (xs ++ ys) s ≡ sent ys (sent xs s)
  sent-append [] ys s = refl
  sent-append (x ∷ xs) ys s =
      sent-append xs ys
        (record { world = (cluster.respond x s.world).1; calls = s.calls ++ x ∷ [] })

  pub sent-calls : (xs : List Call) (s : Session cluster) → (sent xs s).calls ≡ s.calls ++ xs
  sent-calls [] s = sym (append-nil s.calls)
  sent-calls (x ∷ xs) s =
      sent-calls xs (record { world = (cluster.respond x s.world).1; calls = s.calls ++ x ∷ [] })
      ∙ append_assoc s.calls (x ∷ []) xs

  -- The API server takes every request.
  abbrev pub Accepts : Type 0
  Accepts = (call : Call) (w : cluster.World) → (cluster.respond call w).0 ≡ none

  -- The manager once canAdopt has agreed.
  abbrev pub agreed : RefManager cluster → RefManager cluster
  agreed rm = record rm { can_adopt_once = true; can_adopt_err = none }

  -- The manager as it was made, with a canAdoptFunc that agrees.
  abbrev pub Willing : RefManager cluster → Type 0
  Willing rm =
      (f : cluster.World → Outcome (Unit {0})) × (rm.can_adopt_once ≡ false)
      × (rm.can_adopt_func ≡ some f)
      × ((w : cluster.World) → f w ≡ ok tt)
