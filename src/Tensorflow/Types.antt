-- ===== src/Tensorflow/Types.antt =====
-- pkg/tensorflow/types.go and util.go.
use kubeflow_controller.Common.{String}
use kubeflow_controller.Common.Int.{ℤ, pos}
use kubeflow_controller.Common.Go.{Go}
use kubeflow_controller.Common.Outcome.{ok}

pub data ActionType : Type 0 where
  should_add_ps should_add_ps_service should_add_worker should_add_worker_service : ActionType
  should_delete nothing : ActionType

pub record Event : Type 0 where
  pub action : ActionType
  pub number : ℤ

-- Event{Action: ActionNothing}: the number is the zero value
abbrev pub nothing_event : Event
nothing_event = record { action = nothing; number = pos 0 }

-- v1.SimpleNameGenerator of Kubernetes: a name with the given prefix, and the generator's next state.
pub record NameGenerator : Type 1 where
  pub Gen : Type 0
  pub generate : String → Gen → String × Gen

module _ (names : NameGenerator) where
  open names use {Gen, generate}

  unfoldable pub generate_name : String → Go Gen String
  generate_name prefix gen = let (name, gen') = generate prefix gen in (ok name, gen')

  unfoldable pub generate_runtime_id : Go Gen String
  unfolding generate_name
  generate_runtime_id = generate_name ""
