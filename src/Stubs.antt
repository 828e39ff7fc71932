-- ===== src/Stubs.antt =====
-- lib/lwip_stubs.c: the OCaml bindings. A `tcp_wrap` is found by a number, the pointer in its
-- custom block; a `value` kept in `tw->v` is the number of an OCaml value, with its kind. What the
-- bindings call in lwip/src/core/tcp.c is the parameter `TcpApi`, over a state of its own. A call
-- of an OCaml closure is an entry of the list `events`: the closures of lib/lwip.ml only signal
-- condition variables or fill the listen queue, and do not call back into the bindings.
pub mod State
pub mod Queue
pub mod Calls
mod Tests
