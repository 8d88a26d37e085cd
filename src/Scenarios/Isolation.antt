-- ===== src/Scenarios/Isolation.antt =====
-- A cache of many jobs, and the sync of one of them.
use kubeflow_controller.Common.{
  String, none, some, [], ◌≡◌, ◌≢◌, ◌⊎◌, inr, refl, sym, ap, ◌∙◌, ◌&&◌, arith, str_eq, eq_iff,
  if◌then◌else◌,
}
use kubeflow_controller.Common.Int.{pos}
use kubeflow_controller.Common.Text.{ne_of_str_eq}
use kubeflow_controller.Common.Outcome.{Outcome, ok, fail, panic}
use kubeflow_controller.Api.{TfJob}
use kubeflow_controller.Platform.{Platform}
use kubeflow_controller.Platform.Queue.{JobCache, CacheLaws}
use kubeflow_controller.Controller.Sync.{Controller, sync_handler}
use kubeflow_controller.Controller.Sync.Isolated.{sync_handler-isolated}
use kubeflow_controller.Scenarios.Fixtures.{small_platform, counters-laws, fresh_session}
use kubeflow_controller.Scenarios.Jobs.{two_workers}

abbrev named_jobs : JobCache
named_jobs = record {
  Cache = String → String → Outcome TfJob;
  get = λ namespace name jobs. jobs namespace name;
  put = λ namespace name job jobs namespace' name'.
      if str_eq namespace namespace' && str_eq name name' then ok job else jobs namespace' name';
}

put_elsewhere :
    (namespace name namespace' name' : String) (job : TfJob) (jobs : named_jobs.Cache)
    → (namespace ≢ namespace') ⊎ (name ≢ name')
    → named_jobs.put namespace name job jobs namespace' name' ≡ jobs namespace' name'
put_elsewhere namespace name namespace' name' job jobs h =
    ground (arith, eq_iff namespace namespace', eq_iff name name')

named_jobs-laws : CacheLaws named_jobs
named_jobs-laws = record { get-put_other = put_elsewhere }

abbrev many_jobs : Platform
many_jobs = record small_platform { cache = named_jobs }

-- There is a job under every name; the other job waits for three creations.
abbrev busy : Controller many_jobs
busy = record {
  sync = record {
    session = fresh_session [];
    gen = 0;
    store = λ key. if str_eq key "other" then some (pos 3) else none;
  };
  jobs = λ namespace name.
      ok (record two_workers { metadata = record two_workers.metadata { name = name } });
  queue = ([], []);
}

abbrev name_of : Outcome TfJob → String
name_of (ok job) = job.metadata.name
name_of (fail e) = ""
name_of (panic f) = ""

abbrev second_of : Outcome (String × String) → String
second_of (ok (namespace, name)) = name
second_of (fail e) = ""
second_of (panic f) = ""

other_name : ◌≡◌ {A = String} "mnist" "other" → ⊥
other_name = ne_of_str_eq refl

sync_handler-isolated_example :
    let (_, c') = sync_handler many_jobs "mnist" busy in
    (c'.sync.store "other" ≡ some (pos 3))
    × (c'.jobs "default" "other" ≡ busy.jobs "default" "other")
    × (c'.queue ≡ ([], []))
sync_handler-isolated_example =
    sync_handler-isolated many_jobs "mnist" "other" "default" "other" busy counters-laws
      named_jobs-laws refl (λ namespace name e. inr (λ same. other_name (ap second_of e ∙ same)))
      (λ namespace name job e found. ap ok (sym (ap name_of found) ∙ sym (ap second_of e)))
