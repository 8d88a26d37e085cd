-- ===== src/Ref/Within.antt =====
-- Claiming services for a job: every patch is one of a service in the job's namespace.
use kubeflow_controller.Common.{
  Bool, true, false, Option, none, some, List, [], ◌∷◌, ◌≡◌, Option-cases, inl, inr, ap, refl, ◌∙◌,
  All, not, ◌||◌, str_eq,
}
use kubeflow_controller.Common.Outcome.{Outcome, ok, fail, panic, Err}
use kubeflow_controller.Common.Go.{Go, lift, ◌>>=◌}
use kubeflow_controller.Common.Go.Keeps.{
  Preorder, Keeps, >>=-Keeps, and_then-Keeps, zoom-Keeps, lift-Keeps, if-Keeps,
}
use kubeflow_controller.Api.{ObjectMeta, OwnerReference, Service}
use kubeflow_controller.Platform.Machinery.{Machinery}
use kubeflow_controller.Platform.Cluster.{Cluster, Session}
use kubeflow_controller.Platform.Requests.{Sent, Sent-none, Sent-trans}
use kubeflow_controller.Platform.Patches.{adoption, release}
use kubeflow_controller.Control.Within.{ForJob, patch_the_service-Within}
use kubeflow_controller.Ref.Base.{
  RefManager, State, run_once, settle, can_adopt, is_deleting, claim_object, claim_owned,
  claim_orphan, unless_missing,
}
use kubeflow_controller.Ref.Service.{
  adopt_if, adopt_service, release_service, on_session, ignore_gone, claim_one, claim_loop,
  claim_services, matches, collect, add_controller_patch, delete_owner_ref_patch,
}

module _ (m : Machinery) (cluster : Cluster) (may : ObjectMeta → Bool) (meta : ObjectMeta) where
  -- A manager whose controller is the job.
  abbrev pub Claiming : Preorder (State m cluster)
  Claiming = record {
    Rel =
        λ s t. s.0.controller ≡ meta → (t.0.controller ≡ meta) × Sent may meta s.1.calls t.1.calls;
    same = λ s h. (h, Sent-none may meta s.1.calls);
    through = λ s t u f g h.
        let (e, sent) = f h in
        let (e', sent') = g e in (e', Sent-trans may meta s.1.calls t.1.calls u.1.calls sent sent');
  }

  settle-controller :
      (answer : Outcome (Unit {0})) (rm : RefManager cluster)
      → (settle m cluster answer rm).1.controller ≡ rm.controller
  settle-controller (ok a) rm = refl
  settle-controller (fail e) rm = refl
  settle-controller (panic f) rm = refl

  run_once-controller :
      (f : Option (cluster.World → Outcome (Unit {0}))) (rm : RefManager cluster)
      (s : Session cluster)
      → (run_once m cluster f rm s).1.controller ≡ rm.controller
  run_once-controller none rm s = refl
  run_once-controller (some f) rm s = settle-controller (f s.world) rm

  can_adopt-Within : Keeps Claiming (can_adopt m cluster)
  unfolding can_adopt
  can_adopt-Within = record {
    apply = λ s.
        if-Keeps Claiming s.0.can_adopt_once s _ _ (Claiming.same s)
          (λ e. (run_once-controller s.0.can_adopt_func s.0 s.1 ∙ e, Sent-none may meta s.1.calls));
  }

  on_session-Within :
      {f : Go (Session cluster) (Unit {0})}
      → Keeps (ForJob m cluster may meta) f
      → Keeps Claiming (on_session m cluster f)
  on_session-Within h =
      zoom-Keeps (ForJob m cluster may meta) Claiming (λ s. s.1) (λ t s. (s.0, t))
        (λ t s k e. (e, k.1)) h

  -- A service in the job's namespace.
  abbrev pub IsNear : ObjectMeta → Type 0
  IsNear obj = obj.namespace ≡ meta.namespace

  adopt_if-Within :
      (obj : ObjectMeta)
      → IsNear obj
      → (r : Outcome (Unit {0})) → Keeps Claiming (λ s. adopt_if m cluster obj (r, s))
  unfolding adopt_if add_controller_patch
  adopt_if-Within obj h (ok a) = record {
    apply = λ s e.
        (on_session-Within (
            patch_the_service-Within m cluster may meta obj.namespace obj.name
              (add_controller_patch m cluster s.0 obj)
              (
                h,
                (
                  obj.uid,
                  inl (
                    s.0.controller_group_version,
                    s.0.controller_kind,
                    ap
                        (λ owner.
                          adoption owner s.0.controller_group_version s.0.controller_kind obj.uid)
                        e,
                  ),
                ),
              ))).apply
          s e;
  }
  adopt_if-Within obj h (fail e) = record { apply = λ s. Claiming.same s }
  adopt_if-Within obj h (panic f) = record { apply = λ s. Claiming.same s }

  adopt_service-Within :
      (obj : ObjectMeta) → IsNear obj → Keeps Claiming (adopt_service m cluster obj)
  unfolding adopt_service
  adopt_service-Within obj h = record {
    apply =
        and_then-Keeps Claiming (λ r s. adopt_if m cluster obj (r, s)) can_adopt-Within
          (adopt_if-Within obj h);
  }

  ignore_gone-Within : (r : Outcome (Unit {0})) → Keeps Claiming (λ s. ignore_gone m cluster (r, s))
  ignore_gone-Within (ok a) = record { apply = λ s. Claiming.same s }
  ignore_gone-Within (fail e) = record { apply = λ s. Claiming.same s }
  ignore_gone-Within (panic f) = record { apply = λ s. Claiming.same s }

  release_service-Within :
      (obj : ObjectMeta) → IsNear obj → Keeps Claiming (release_service m cluster obj)
  unfolding release_service delete_owner_ref_patch
  release_service-Within obj h = record {
    apply = λ s e.
        and_then-Keeps Claiming (λ r t. ignore_gone m cluster (r, t))
          (on_session-Within (
            patch_the_service-Within m cluster may meta obj.namespace obj.name
              (delete_owner_ref_patch m cluster s.0 obj)
              (h, (obj.uid, inr (ap (λ owner. release owner obj.uid) e)))))
          ignore_gone-Within s e;
  }

  unless_missing-Within :
      (done : Bool) (r : Outcome (Unit {0}))
      → Keeps Claiming (λ s. unless_missing m cluster done (r, s))
  unless_missing-Within done (ok a) = record { apply = λ s. Claiming.same s }
  unless_missing-Within done (fail e) = record { apply = λ s. Claiming.same s }
  unless_missing-Within done (panic f) = record { apply = λ s. Claiming.same s }

  claim_owned-Within :
      (ref : OwnerReference) (selected : Bool) {release : Go (State m cluster) (Unit {0})}
      → Keeps Claiming release
      → Keeps Claiming (claim_owned m cluster ref selected release)
  unfolding claim_owned
  claim_owned-Within ref selected {release} h = record {
    apply = λ s.
        let end = unless_missing m cluster false (release s) in
        if-Keeps Claiming (not (str_eq ref.uid s.0.controller.uid)) s (ok false, s) _
          (Claiming.same s)
          (if-Keeps Claiming selected s (ok true, s) _ (Claiming.same s)
            (if-Keeps Claiming (is_deleting m cluster s.0.controller) s (ok false, s) end
              (Claiming.same s)
              (and_then-Keeps Claiming (λ r t. unless_missing m cluster false (r, t)) h
                (unless_missing-Within false) s)));
  }

  claim_orphan-Within :
      (obj : ObjectMeta) (selected : Bool) {adopt : Go (State m cluster) (Unit {0})}
      → Keeps Claiming adopt
      → Keeps Claiming (claim_orphan m cluster obj selected adopt)
  unfolding claim_orphan
  claim_orphan-Within obj selected {adopt} h = record {
    apply = λ s.
        let end = unless_missing m cluster true (adopt s) in
        if-Keeps Claiming (is_deleting m cluster s.0.controller || not selected) s (ok false, s) _
          (Claiming.same s)
          (if-Keeps Claiming (is_deleting m cluster obj) s (ok false, s) end (Claiming.same s)
            (and_then-Keeps Claiming (λ r t. unless_missing m cluster true (r, t)) h
              (unless_missing-Within true) s));
  }

  claim_object-Within :
      (obj : ObjectMeta) (match : ObjectMeta → Bool)
      {adopt release : Go (State m cluster) (Unit {0})}
      → Keeps Claiming adopt
      → Keeps Claiming release
      → Keeps Claiming (claim_object m cluster obj match adopt release)
  unfolding claim_object
  claim_object-Within obj match h k = elim (Option-cases (m.get_controller_of obj)) [
    | inl e ↦ rw (e, claim_object) (claim_orphan-Within obj (match obj) h)
    | inr (ref, e) ↦ rw (e, claim_object) (claim_owned-Within ref (match obj) k)
  ]

  claim_one-Within :
      (filters : List (Service → Bool)) (service : Service)
      → IsNear service.metadata
      → Keeps Claiming (claim_one m cluster filters service)
  unfolding claim_one
  claim_one-Within filters service h = record {
    apply = λ s.
        (claim_object-Within service.metadata (λ _. matches m cluster s.0 filters service)
            (adopt_service-Within service.metadata h)
            (release_service-Within service.metadata h)).apply
          s;
  }

  claim_loop-Within :
      (filters : List (Service → Bool)) (services : List Service) (acc : List Service × List Err)
      → All (λ (service : Service). IsNear service.metadata) services
      → Keeps Claiming (claim_loop m cluster filters services acc)
  unfolding claim_loop
  claim_loop-Within filters [] acc h = record { apply = λ s. Claiming.same s }
  claim_loop-Within filters (service ∷ services) acc h = record {
    apply =
        and_then-Keeps Claiming
          (λ r. lift (collect m cluster service acc r) >>= claim_loop m cluster filters services)
          (claim_one-Within filters service h.0)
          (λ r.
            >>=-Keeps Claiming (lift-Keeps Claiming (collect m cluster service acc r))
              (λ acc'. claim_loop-Within filters services acc' h.1));
  }

  pub claim_services-Within :
      (filters : List (Service → Bool)) (services : List Service)
      → All (λ (service : Service). IsNear service.metadata) services
      → Keeps Claiming (claim_services m cluster services filters)
  unfolding claim_services
  claim_services-Within filters services h = record {
    apply = λ s. (claim_loop-Within filters services ([], []) h).apply s;
  }
