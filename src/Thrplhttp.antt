-- ===== src/Thrplhttp.antt =====
-- thrplhttp.c: the HTTP server with a pool of threads per processor. `Sessions` is the queue of
-- accepted sessions, a monitor with two condition variables; `Stream`, `Connection` and `Http` are what
-- a thread does with a session: the buffered stream over the socket, the requests and the responses.
pub mod Service
pub mod Sessions
pub mod Stream
pub mod Connection
pub mod Http
mod Tests
