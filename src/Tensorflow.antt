-- ===== src/Tensorflow.antt =====
-- pkg/tensorflow: what a training job needs next. `Local` and `Distributed` follow the two kinds of
-- job; their children prove what they are for.
pub mod Types
pub mod Local
pub mod Distributed
pub mod Metadata
