-- ===== src/Ref/Carried.antt =====
-- Carrying out the verdict on one service, on an API server that takes every patch.
use kubeflow_controller.Common.{
  true, false, Option, none, some, [], ◌∷◌, ◌≡◌, ◌⊎◌, inl, inr, refl, sym, ap, ◌∙◌, if◌then◌else◌,
  if_false,
}
use mathlib.Core.Path.{subst}
use kubeflow_controller.Common.Outcome.{Outcome, ok, fail, Err}
use kubeflow_controller.Api.{ObjectMeta}
use kubeflow_controller.Platform.Machinery.{Machinery}
use kubeflow_controller.Platform.Cluster.{Cluster, Session, patch_service, result}
use kubeflow_controller.Ref.Base.{RefManager, State, can_adopt, run_once, settle, unless_missing}
use kubeflow_controller.Ref.Service.{
  adopt_service, release_service, add_controller_patch, delete_owner_ref_patch,
}
use kubeflow_controller.Ref.Adopt.{adopt_service_lem, release_service_lem}
use kubeflow_controller.Ref.Verdict.{
  Verdict, keeps, leaves, adopts, releases, is_claimed, patches, carry_out,
}
use kubeflow_controller.Ref.Spec.{sent, Accepts, agreed, Willing}

module _ (m : Machinery) (cluster : Cluster) where
  module _ (accepts : Accepts m cluster) (rm : RefManager cluster)
      (willing : Willing m cluster rm) where
    -- The manager at hand is that one, before or after canAdopt has agreed.
    abbrev pub At : RefManager cluster → Type 0
    At now = (now ≡ rm) ⊎ (now ≡ agreed m cluster rm)

    first_agrees :
        (s : Session cluster) → can_adopt m cluster (rm, s) ≡ (ok tt, (agreed m cluster rm, s))
    unfolding can_adopt
    first_agrees s =
        let (f, once, func, agrees) = willing in
        if_false _ _ once
        ∙ ap (λ o. let (r, now) = run_once m cluster o rm s in (r, (now, s))) func
        ∙ ap (λ answer. let (r, now) = settle m cluster answer rm in (r, (now, s))) (agrees s.world)

    can_adopt-agrees :
        (now : RefManager cluster) (s : Session cluster)
        → At now
        → can_adopt m cluster (now, s) ≡ (ok tt, (agreed m cluster rm, s))
    unfolding can_adopt
    can_adopt-agrees now s (inl e) = ap (λ now. can_adopt m cluster (now, s)) e ∙ first_agrees s
    can_adopt-agrees now s (inr e) = ap (λ now. can_adopt m cluster (now, s)) e

    adopt_service-sent :
        (obj : ObjectMeta) (now : RefManager cluster) (s : Session cluster)
        → At now
        → adopt_service m cluster obj (now, s)
          ≡ (ok tt, (agreed m cluster rm, sent m cluster (patches m cluster rm obj adopts) s))
    unfolding add_controller_patch
    adopt_service-sent obj now s at =
        let call = patch_service obj.namespace obj.name (add_controller_patch m cluster rm obj) in
        adopt_service_lem m cluster obj (now, s) (can_adopt-agrees now s at)
        ∙ ap (λ answer. (result answer, (agreed m cluster rm, sent m cluster (call ∷ []) s)))
            (accepts call s.world)

    pub either_manager :
        (P : RefManager cluster → Type 0) (now : RefManager cluster)
        → At now
        → P rm
        → P (agreed m cluster rm)
        → P now
    either_manager P now (inl e) first later = subst P (sym e) first
    either_manager P now (inr e) first later = subst P (sym e) later

    -- The answer of ReleaseService.
    abbrev released : Option Err → Outcome (Unit {0})
    released none = ok tt
    released (some e) = if m.is_not_found e then ok tt else if m.is_invalid e then ok tt else fail e

    release_service-sent :
        (obj : ObjectMeta) (now : RefManager cluster) (s : Session cluster)
        → At now
        → release_service m cluster obj (now, s)
          ≡ (ok tt, (now, sent m cluster (patches m cluster rm obj releases) s))
    unfolding delete_owner_ref_patch
    release_service-sent obj now s at =
        let call = patch_service obj.namespace obj.name (delete_owner_ref_patch m cluster rm obj) in
        let answered : (now : RefManager cluster)
            → ◌≡◌ {A = Outcome (Unit {0}) × State m cluster}
                (released (cluster.respond call s.world).0, (now, sent m cluster (call ∷ []) s))
                (ok tt, (now, sent m cluster (call ∷ []) s)) =
          λ now.
            ap (λ answer. (released answer, (now, sent m cluster (call ∷ []) s)))
              (accepts call s.world) in
        either_manager
          (λ now.
            release_service m cluster obj (now, s) ≡ (ok tt, (now, sent m cluster (call ∷ []) s)))
          now at (release_service_lem m cluster obj (rm, s) ∙ answered rm)
          (release_service_lem m cluster obj (agreed m cluster rm, s)
            ∙ answered (agreed m cluster rm))

    pub verdict-carried :
        (v : Verdict) (obj : ObjectMeta) (now : RefManager cluster) (s : Session cluster)
        → At now
        → (now' : RefManager cluster) × At now'
          × (carry_out m cluster v
                (adopt_service m cluster obj)
                (release_service m cluster obj)
                (now, s)
              ≡ (ok (is_claimed v), (now', sent m cluster (patches m cluster rm obj v) s)))
    verdict-carried keeps obj now s at = (now, at, refl)
    verdict-carried leaves obj now s at = (now, at, refl)
    verdict-carried adopts obj now s at = (
      agreed m cluster rm,
      inr refl,
      ap (unless_missing m cluster true) (adopt_service-sent obj now s at),
    )
    verdict-carried releases obj now s at =
        (now, at, ap (unless_missing m cluster false) (release_service-sent obj now s at))
