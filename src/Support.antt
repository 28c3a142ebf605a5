-- ===== src/Support.antt =====
-- src/arvel/support: money, the pipeline and command signatures.
pub mod Money
pub mod Pipeline
pub mod CommandSignature
