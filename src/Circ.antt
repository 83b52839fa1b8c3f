-- ===== src/Circ.antt =====
-- c-cpp/circ/circ.c: an IRC client's sessions and message parser.
pub mod Text
pub mod Parse
pub mod Session
