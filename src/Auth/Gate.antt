-- ===== src/Auth/Gate.antt =====
-- src/arvel/auth/gate.py: the gate's registries, its answer to a question, and the verbs on it.
-- A callback is what it returns or raises; what else it does is not modelled.
pub mod Annotation
pub mod Split
pub mod Check
pub mod Raw
pub mod Verbs
pub mod Decides
pub mod Agree
pub mod Tiers
mod Tests
