-- ===== src/Scenarios/Fixtures.antt =====
-- A platform whose API server answers from a script, and which numbers the names that it generates.
use Prim.Native.String.{◌++◌}
use mathlib.Core.Option
use kubeflow_controller.Common.{
  length, ◌<◌, ℕ, suc, String, Bool, true, false, Option, none, some, List, [], ◌∷◌, ◌++◌ as append,
  ◌≡◌, refl, arith, not, str_eq, if◌then◌else◌,
}
use kubeflow_controller.Common.Int.{ℤ, pos, negsuc, ltb_ℤ, ◌-ℤ◌, ◌≤ℤ◌}
use kubeflow_controller.Common.Map.{Map}
use kubeflow_controller.Common.Text.{decimal}
use kubeflow_controller.Common.Outcome.{Outcome, ok, fail, panic, Err, Errs, status, aggregate}
use kubeflow_controller.Common.Outcome
use kubeflow_controller.Api.{OwnerReference, TfJob}
use kubeflow_controller.Tensorflow.Types.{NameGenerator}
use kubeflow_controller.Platform.Machinery.{Machinery, MachineryLaws}
use kubeflow_controller.Platform.Cluster.{Cluster, Session, Call}
use kubeflow_controller.Platform.Expectations.{Expectations, ExpectationsLaws}
use kubeflow_controller.Platform.Queue.{Item, WorkQueue, DrainingLaws, JobCache}
use kubeflow_controller.Platform.{Platform, Sync}

abbrev pub missing : Err
missing = Outcome.status Outcome.Reason.not_found

abbrev pub timed_out : Err
timed_out = Outcome.status Outcome.Reason.timeout

abbrev first_owner : List OwnerReference → Option OwnerReference
first_owner [] = none
first_owner (ref ∷ refs) = some ref

abbrev is_missing : Err → Bool
is_missing (status Outcome.Reason.not_found) = true
is_missing e = false

abbrev pub first_error : List Err → Option Err
first_error [] = none
first_error (e ∷ es) = some e

abbrev pub chosen : Outcome (Map String → Bool) → Map String → Bool
chosen (ok selector) = selector
chosen (fail e) = λ set. false
chosen (panic f) = λ set. false

abbrev pub small_machinery : Machinery
small_machinery = record {
  get_controller_of = λ meta. first_owner meta.owner_references;
  label_selector = λ _. ok (λ _. true);
  selects_all = λ ls. elim ls [ none ↦ true | some _ ↦ false ];
  is_not_found = is_missing;
  is_invalid = λ _. false;
  new_aggregate = first_error;
  filter_active_pods = λ pods. pods;
  key_func = λ meta. ok meta.name;
  split_key = λ k. ok ("default", k);
  recheck_deletion_timestamp = λ _. ok tt;
}

pub small_machinery-laws : MachineryLaws small_machinery
small_machinery-laws = record { aggregate_none = refl; aggregate_some = λ e es h. ground arith }

-- The world is the script of the answers to come; when it has run out, every request succeeds.
abbrev answer : Call → List (Option Err) → Option Err × List (Option Err)
answer call [] = (none, [])
answer call (a ∷ script) = (a, script)

abbrev pub scripted_cluster : Cluster
scripted_cluster = record {
  World = List (Option Err);
  respond = answer;
  list_pods = λ _ _. ok [];
  list_services = λ _ _. ok [];
  fresh_job = λ _ _ _. fail missing;
  claim_pods = λ _ _ _ pods w. (ok pods, ([], w));
}

abbrev pub counters : Expectations
counters = record {
  Store = String → Option ℤ;
  new = λ _. none;
  satisfied_expectations = λ k s. elim (s k) [ none ↦ true | some n ↦ not (ltb_ℤ (pos 0) n) ];
  expect_creations = λ k n s j. if str_eq k j then some n else s j;
  creation_observed = λ k s j. if str_eq k j then Option.map (λ n. n -ℤ pos 1) (s j) else s j;
  delete_expectations = λ k s j. if str_eq k j then none else s j;
  pending = λ k s. s k;
}

met : (n : ℤ) → n ≤ℤ pos 0 → not (ltb_ℤ (pos 0) n) ≡ true
met (pos n) h = ground arith
met (negsuc n) h = ground arith

pub counters-laws : ExpectationsLaws counters
counters-laws = record {
  pending-new = λ k. refl;
  pending-expect = λ k j n s. refl;
  pending-observed = λ k j s. refl;
  pending-delete = λ k j s. refl;
  satisfied_none = λ k s e. rw e refl;
  satisfied_met = λ k {n} s e h. rw e (met n h);
}

abbrev pub numbered : NameGenerator
numbered = record { Gen = ℕ; generate = λ prefix g. (prefix ++ decimal g, suc g) }

-- A cache for one job at most.
abbrev find_job : Option TfJob → Outcome TfJob
find_job none = fail missing
find_job (some job) = ok job

abbrev one_job : JobCache
one_job = record {
  Cache = Option TfJob;
  get = λ _ _ jobs. find_job jobs;
  put = λ _ _ job _. some job;
}

-- The items that wait, and those that were forgotten.
abbrev next_item : List Item × List Item → Option Item × (List Item × List Item)
next_item ([], forgotten) = (none, ([], forgotten))
next_item (item ∷ items, forgotten) = (some item, (items, forgotten))

abbrev pub fifo : WorkQueue
fifo = record {
  Queue = List Item × List Item;
  new = ([], []);
  get = next_item;
  done = λ _ q. q;
  forget = λ item q. (q.0, append q.1 (item ∷ []));
  add_rate_limited = λ item q. (append q.0 (item ∷ []), q.1);
  shut_down = λ q. q;
}

pub fifo-shorter :
    (q : List Item × List Item) {item : Item} {q' : List Item × List Item}
    → next_item q ≡ (some item, q')
    → length q'.0 < length q.0
fifo-shorter ([], forgotten) e = ground arith
fifo-shorter (item ∷ items, forgotten) e = ground arith

abbrev pub fifo-draining : DrainingLaws fifo
fifo-draining = record {
  size = λ q. length q.0;
  size-get = λ q e. fifo-shorter q e;
  size-done = λ item q. omega arith;
  size-forget = λ item q. omega arith;
}

abbrev pub small_platform : Platform
small_platform = record {
  machinery = small_machinery;
  cluster = scripted_cluster;
  expectations = counters;
  names = numbered;
  cache = one_job;
  workqueue = fifo;
}

abbrev pub fresh_session : List (Option Err) → Session scripted_cluster
fresh_session script = record { world = script; calls = [] }

abbrev pub fresh_sync : List (Option Err) → Sync small_platform
fresh_sync script = record { session = fresh_session script; gen = 0; store = λ _. none }
