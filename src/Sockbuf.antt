-- ===== src/Sockbuf.antt =====
-- c-cpp/onethread/sockbuf.c, in the parts named by the modules.
pub mod State
pub mod Run
pub mod Env
pub mod Stats
pub mod Table
pub mod Access
pub mod Filters
pub mod Events
pub mod Loop
pub mod Io
pub mod Lifecycle
pub mod Valid
pub mod Sequence
