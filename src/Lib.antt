-- ===== src/Lib.antt =====
-- The controller of TFJobs: from the watched resources to the requests that it makes.
--
-- The program watches TFJobs, pods and services, and keeps a queue of the keys of jobs. A worker
-- takes a key, looks the job up in the informer's cache, claims the job's pods and services, asks a
-- plan for what is missing, creates it, and writes the status that an updater works out. What a job
-- has asked for and not yet seen is kept in the expectations; the event handlers lower them.
--
-- Files, and the code that they model (paths from the repository's root):
--   Common        integers, maps, results (`Outcome`: a value, an error, a panic) and methods that
--                 change their receiver (`Go`: from a state to a result and the next state)
--   Api           the TFJob resource of the clientset, and the fields of pods, services and metadata
--                 that the program uses; a nil pointer or a nil map is `none`
--   Platform      what the program calls and does not hold: the API server and the caches (`Cluster`,
--                 whose session keeps the requests in order), the expectations, the name generator,
--                 the work queue, and pure functions of Kubernetes; all are parameters (ClaimPods with
--                 the patches that it sends, which are kept among the requests), and the
--                 documented behaviour that a theorem needs is a hypothesis of it
--   Checker       pkg/checker
--   Tensorflow    pkg/tensorflow: `Local` is LocalJob, `Distributed` is DistributedJob (its `Spec` the
--                 methods that only read); Action is `action`, GetSpec `get_spec`, GetService
--                 `get_service`
--   Updater       pkg/controller/updater: ShouldUpdate is `should_update`; `Run` is the end of
--                 syncHandler, which makes an updater and asks it
--   Control       pkg/controller/control: `Create` has both controls, `Validate` the owner reference
--   Ref           pkg/controller/ref: `Base` and `Service`; the sync.Once is a flag of the manager
--   Controller    pkg/controller: `Util`, `Labels` and `Helper` are util.go and helper.go; of
--                 controller.go `Manage` is manageTFJob, `Sync` syncHandler and updateTFJob, `Handlers`
--                 the event handlers, `Worker` processNextWorkItem and runWorker, `Wiring` NewController,
--                 and `Run` is Run
--   Signals       pkg/util/signals: SetupSignalHandler, with signals and receives in any order
--   Command       cmd/controller/main.go: main and run, up to the controller's Run and after it
--   System        the running program as steps: signals, events, changes of the caches and the cluster,
--                 the syncing of the caches, rounds of workers, and the stop
--   Scenarios     a small platform, two jobs, and the theorems applied to them
--
-- The children of these files prove what is listed below. Loops are structural: over the list, or
-- over the number of rounds that the loop's bound gives, which no body changes, so that no fuel is
-- needed; runWorker's loop is followed for a number of rounds, and one more than the items that are
-- left is enough when the queue is shutting down. An int32 keeps its wrap-around (`int32`); an int is
-- a whole number, since none of the program's grows beyond an int32 and the number of pods. The job
-- is shared: what a method writes into it the next one reads, and the cache keeps it. Logging is left
-- out. A panic is a result; only what GetSpec writes just before it panics is not kept.
--
-- Two things run through several parts. `Common.Go.Keeps` has the rules by which what a method keeps
-- follows from what its parts keep, and the modules named `Within` and `Scope` apply them from the
-- creation of a pod up to a whole sync, for the requests of `Platform.Requests`. `System` takes a round of
-- a worker as one step: rounds of two workers are followed one after the other.
-- `Controller.Helper.Services` gives GetServicesForTFJob by the specification of `Ref.Spec`; what the two
-- claims of one sync do to the same services stands on it.
--
-- Syncs of different keys share the expectations, the cache of jobs and the queue; the modules named
-- `Apart` follow what a sync leaves of another key's, from the creation of a pod up to the sync handler.
-- `Controller.Sync.Course` composes plan, helper, event handlers and updater into the course of a job.
--
-- Not modelled: logging, the parsing of flags, the making of clients, listers and recorders (their
-- results are parameters), rounds of workers that overlap in time or outlast Run, and the vendored
-- libraries.
pub mod Common
pub mod Api
pub mod Platform
pub mod Checker
pub mod Tensorflow
pub mod Updater
pub mod Control
pub mod Ref
pub mod Controller
pub mod Signals
pub mod Command
pub mod System
pub mod Scenarios
