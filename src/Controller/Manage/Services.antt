-- ===== src/Controller/Manage/Services.antt =====
-- The loops of manageTFJob over services: they run to their end, and every replica's host is then
-- the name of the service that was created for it.
use Prim.Native.String.{◌++◌}
use mathlib.Core.Path.{ap₂, subst}
use kubeflow_controller.Common.{
  ℕ, zero, suc, ◌<◌, String, some, List, [], ◌∷◌, map, ◌≡◌, ◌≢◌, ◌⊎◌, inl, inr, refl, sym, ap, ◌∙◌,
  arith, Bool-cases, Option-cases, ap,
}
use kubeflow_controller.Common.Map.{Map, lookup, insert, lookup-insert}
use kubeflow_controller.Common.Text.{decimal}
use kubeflow_controller.Common.Outcome.{
  Outcome, ok, fail, Err, errorf, no_service_labels, unable_to_create_services,
}
use kubeflow_controller.Api.{Service, TfJob}
use kubeflow_controller.Platform.{Platform, Sync}
use kubeflow_controller.Platform.Cluster.{create_service}
use kubeflow_controller.Platform.Requests.{Added, Added-none, Added-trans, Added-map}
use kubeflow_controller.Control.Requests.{new_controller_ref-valid, create_services-requests}
use kubeflow_controller.Controller.Util.{new_controller_ref}
use kubeflow_controller.Updater.Table.{IsType}
use kubeflow_controller.Tensorflow.Distributed.Spec.{
  DistributedJob, get_labels, service_name, host, hosts_from,
}
use kubeflow_controller.Controller.Manage.{Managed, try_create_service, add_service, add_services}
use kubeflow_controller.Controller.Manage.Hosts.{
  named, with_port, host-named_self, host-apart, still_apart, made_service, IsServiceCall, Creates,
  Creates-map, Creates-IsServiceCall, service_and_event,
}

module _ (p : Platform) (key : String) where
  open p use {names}

  -- A service that is refused ends nothing, and the name generator is not asked again.
  try_create_service-ends :
      (job : TfJob) (service : Service) (sy : Sync p)
      → let (r, sy') = try_create_service p key job service sy in
        ((r ≡ ok tt) ⊎ ((e : Err) × (r ≡ fail e)))
        × (sy'.gen ≡ sy.gen)
        × Added (Creates (λ made. made ≡ service)) sy.session.calls sy'.session.calls
  unfolding try_create_service
  try_create_service-ends job service sy =
      rw
        (
          create_services-requests p.machinery p.cluster job.metadata.namespace service job.metadata
              (new_controller_ref job) sy.session (new_controller_ref-valid job),
          try_create_service,
        )
        (elim (Bool-cases (p.machinery.selects_all service.metadata.labels)) [
          | inl e ↦ rw e (
            inr (errorf no_service_labels, refl),
            refl,
            Added-none (Creates (λ made. made ≡ service)) sy.session.calls,
          )
          | inr e ↦
              rw e
                (elim (Option-cases
                  (p.cluster.respond (create_service job.metadata.namespace service)
                    sy.session.world).0) [
                      | inl e' ↦ rw e' (
                        inl refl,
                        refl,
                        service_and_event (λ made. made ≡ service) sy.session.calls
                            job.metadata.namespace service "Normal" "SuccessfulCreate" refl,
                      )
                      | inr (x, e') ↦ rw e' (
                        inr (errorf unable_to_create_services, refl),
                        refl,
                        service_and_event (λ made. made ≡ service) sy.session.calls
                            job.metadata.namespace service "Warning" "FailedCreate" refl,
                      )
                    ])
        ])

  -- The names that the generator gives in turn to the replicas i, …, i + n - 1.
  abbrev pub generated : String → String → ℕ → ℕ → names.Gen → List String
  generated job typ i zero gen = []
  generated job typ i (suc n) gen =
      let (name, gen') = names.generate (service_name job typ i ++ "-") gen in
      name ∷ generated job typ (suc i) n gen'

  abbrev first_name : DistributedJob → String → ℕ → Sync p → String × names.Gen
  first_name dj typ i sy = names.generate (service_name dj.tf_job.metadata.name typ i ++ "-") sy.gen

  add_service_lem :
      (typ : String) (i : ℕ) (dj : DistributedJob) (sy : Sync p)
      → (sy' : Sync p) × (add_service p key typ i (dj, sy)
          ≡ (ok tt, (named dj typ i (first_name dj typ i sy).0, sy')))
        × (sy'.gen ≡ (first_name dj typ i sy).1)
        × Added
            (Creates (λ made. made ≡ made_service dj typ i (first_name dj typ i sy).0))
            sy.session.calls
            sy'.session.calls
  unfolding add_service
  add_service_lem typ i dj sy =
      let (name, gen') = first_name dj typ i sy in
      let sy₁ : Sync p = record sy { gen = gen' } in
      let tried = try_create_service p key dj.tf_job (made_service dj typ i name) sy₁ in
      let (ends, kept, added) =
        try_create_service-ends dj.tf_job (made_service dj typ i name) sy₁ in
      (
        tried.1,
        elim ends [ inl e ↦ rw (e, add_service) refl | inr (x, e) ↦ rw (e, add_service) refl ],
        kept,
        added,
      )

  add_services-suc :
      (typ : String) (n i : ℕ) (dj : DistributedJob) (sy : Sync p)
      → add_services p key typ i (suc n) (dj, sy)
        ≡ add_services p key typ
            (suc i)
            n
            (named dj typ i (first_name dj typ i sy).0, (add_service_lem typ i dj sy).0)
  unfolding add_services
  add_services-suc typ n i dj sy = rw ((add_service_lem typ i dj sy).1, add_services) refl

  -- The loop runs to its end, keeps the job, and leaves alone the hosts of replicas that it does not
  -- name: those of the other type, and those with smaller indices.
  pub add_services-keeps :
      (typ : String) (n i : ℕ) (dj : DistributedJob) (sy : Sync p) (typ' : String) (j : ℕ)
      → IsType typ
      → IsType typ'
      → (typ ≢ typ') ⊎ (j < i)
      → let (r, s') = add_services p key typ i n (dj, sy) in
        (r ≡ ok tt) × (s'.0.tf_job ≡ dj.tf_job) × (host s'.0 typ' j ≡ host dj typ' j)
  unfolding add_services
  add_services-keeps typ zero i dj sy typ' j k k' apart = (refl, refl, refl)
  add_services-keeps typ (suc n) i dj sy typ' j k k' apart =
      let (sy', step, gen, _) = add_service_lem typ i dj sy in
      let dj' = named dj typ i (first_name dj typ i sy).0 in
      let (r, job, hosts) =
        add_services-keeps typ n (suc i) dj' sy' typ' j k k' (still_apart typ typ' i j apart) in
      rw (step, add_services)
        (r, job, hosts ∙ host-apart dj typ typ' i j (first_name dj typ i sy).0 k k' apart)

  -- The hosts of the replicas are known afterwards.
  pub add_services-known :
      (typ : String) (n i : ℕ) (dj : DistributedJob) (sy : Sync p)
      → IsType typ
      → let (r, s') = add_services p key typ i n (dj, sy) in
        (r ≡ ok tt)
        × (hosts_from s'.0 typ i n
            ≡ map with_port (generated dj.tf_job.metadata.name typ i n sy.gen))
  unfolding hosts_from add_services
  add_services-known typ zero i dj sy k = (refl, refl)
  add_services-known typ (suc n) i dj sy k =
      let (sy', step, gen, _) = add_service_lem typ i dj sy in
      let name = (first_name dj typ i sy).0 in
      let dj' = named dj typ i name in
      let (r, job, first) =
        add_services-keeps typ n (suc i) dj' sy' typ i k k (inr (omega arith)) in
      let (r', rest) = add_services-known typ n (suc i) dj' sy' k in
      let ends : Outcome (Unit {0}) × Managed p → Type 0 = λ (end : Outcome (Unit {0}) × Managed p).
        (end.0 ≡ ok tt)
        × (hosts_from end.1.0 typ i (suc n)
            ≡ map with_port (generated dj.tf_job.metadata.name typ i (suc n) sy.gen)) in
      subst ends (sym (add_services-suc typ n i dj sy)) (
        r,
        ap₂ ◌∷◌ (first ∙ host-named_self dj typ i name) (
            rest ∙ ap (λ g. map with_port (generated dj.tf_job.metadata.name typ (suc i) n g)) gen),
      )

  -- The service of one of the replicas i, i + 1, …, under the name for that replica.
  abbrev pub NamedFrom : ℕ → List String → Service → Type 0
  NamedFrom i [] service = ⊥
  NamedFrom i (name ∷ names) service =
      ((service.metadata.name ≡ name)
        × ((ls : Map String) × (service.metadata.labels ≡ some ls)
            × (lookup "index" ls ≡ some (decimal i))))
      ⊎ NamedFrom (suc i) names service

  -- Each service that the loop asks for has the name that was generated for its replica.
  add_services-named :
      (typ : String) (n i : ℕ) (dj : DistributedJob) (sy : Sync p)
      → Added
          (Creates (NamedFrom i (generated dj.tf_job.metadata.name typ i n sy.gen)))
          sy.session.calls
          (add_services p key typ i n (dj, sy)).1.1.session.calls
  unfolding add_services
  add_services-named typ zero i dj sy = Added-none (Creates (NamedFrom i [])) sy.session.calls
  add_services-named typ (suc n) i dj sy =
      let (sy', step, gen, added) = add_service_lem typ i dj sy in
      let name = (first_name dj typ i sy).0 in
      let dj' = named dj typ i name in
      let end = add_services p key typ (suc i) n (dj', sy') in
      let job = dj.tf_job.metadata.name in
      let all = NamedFrom i (generated job typ i (suc n) sy.gen) in
      let others = λ (g : names.Gen). NamedFrom (suc i) (generated job typ (suc i) n g) in
      let rest : Added (Creates (others (first_name dj typ i sy).1)) sy'.session.calls
          end.1.1.session.calls =
        subst (λ g. Added (Creates (others g)) sy'.session.calls end.1.1.session.calls) gen
          (add_services-named typ n (suc i) dj' sy') in
      subst
        (λ (x : Outcome (Unit {0}) × Managed p).
          Added (Creates all) sy.session.calls x.1.1.session.calls)
        (sym (add_services-suc typ n i dj sy))
        (Added-trans (Creates all) sy.session.calls sy'.session.calls end.1.1.session.calls
          (Added-map (Creates (λ made. made ≡ made_service dj typ i name)) (Creates all)
            sy.session.calls sy'.session.calls
            (Creates-map (λ made. made ≡ made_service dj typ i name) all
              (λ made e. inl (
                ap (λ s. s.metadata.name) e,
                (
                  insert "index" (decimal i) (get_labels dj typ),
                  ap (λ s. s.metadata.labels) e,
                  lookup-insert "index" "index" (decimal i) (get_labels dj typ),
                ),
              )))
            added)
          (Added-map (Creates (others (first_name dj typ i sy).1)) (Creates all) sy'.session.calls
            end.1.1.session.calls
            (Creates-map (others (first_name dj typ i sy).1) all (λ made h. inr h)) rest))

  -- After the loop that creates the services of all replicas of a type, the host of each replica is
  -- the name that was generated for its service, in the replicas' order, and the port. Beside events the
  -- loop asks for services only, and each has the name that was generated for the replica that its index
  -- label names.
  pub add_services-hosts :
      (typ : String) (n i : ℕ) (dj : DistributedJob) (sy : Sync p)
      → IsType typ
      → let (r, s') = add_services p key typ i n (dj, sy) in
        (r ≡ ok tt)
        × (hosts_from s'.0 typ i n
            ≡ map with_port (generated dj.tf_job.metadata.name typ i n sy.gen))
        × Added
            (Creates (NamedFrom i (generated dj.tf_job.metadata.name typ i n sy.gen)))
            sy.session.calls
            s'.1.session.calls
  add_services-hosts typ n i dj sy k =
      let (r, hosts) = add_services-known typ n i dj sy k in
      (r, hosts, add_services-named typ n i dj sy)

  -- The name generator after it gave these names.
  abbrev pub generated_gen : String → String → ℕ → ℕ → names.Gen → names.Gen
  generated_gen job typ i zero gen = gen
  generated_gen job typ i (suc n) gen =
      generated_gen job typ (suc i) n (names.generate (service_name job typ i ++ "-") gen).1

  -- What the loop does beside the job.
  pub add_services-asks :
      (typ : String) (n i : ℕ) (dj : DistributedJob) (sy : Sync p)
      → let (_, s') = add_services p key typ i n (dj, sy) in
        (s'.1.gen ≡ generated_gen dj.tf_job.metadata.name typ i n sy.gen)
        × Added IsServiceCall sy.session.calls s'.1.session.calls
  unfolding add_services
  add_services-asks typ zero i dj sy = (refl, Added-none IsServiceCall sy.session.calls)
  add_services-asks typ (suc n) i dj sy =
      let (sy', step, gen, added) = add_service_lem typ i dj sy in
      let dj' = named dj typ i (first_name dj typ i sy).0 in
      let (gens, rest) = add_services-asks typ n (suc i) dj' sy' in
      let end = (add_services p key typ (suc i) n (dj', sy')).1.1 in
      rw (step, add_services)
        (
          gens ∙ ap (generated_gen dj.tf_job.metadata.name typ (suc i) n) gen,
          Added-trans IsServiceCall sy.session.calls sy'.session.calls end.session.calls
              (Added-map (Creates (λ made. made ≡ made_service dj typ i (first_name dj typ i sy).0))
                IsServiceCall sy.session.calls sy'.session.calls
                (Creates-IsServiceCall
                  (λ made. made ≡ made_service dj typ i (first_name dj typ i sy).0))
                added)
              rest,
        )
