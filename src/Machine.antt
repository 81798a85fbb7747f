-- ===== src/Machine.antt =====
-- The process around the allocator: what it asks of the operating system, the global variables of
-- src/duma.c, and results that may be an abort.
pub mod Env
pub mod State
pub mod Monad
pub mod Paging
pub mod Lock
pub mod Sample
