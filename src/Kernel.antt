-- ===== src/Kernel.antt =====
-- src/arvel/kernel: the service container.
pub mod Container
