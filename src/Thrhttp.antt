-- ===== src/Thrhttp.antt =====
-- thrhttp.c: the HTTP server with a thread for each connection. `Stream` is its buffered stream, `Server`
-- the requests and responses. What it has in common with thrplhttp.c, word for word, is taken from there.
pub mod Stream
pub mod Server
mod Tests
