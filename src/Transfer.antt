-- ===== src/Transfer.antt =====
-- Assignment3/src/client.c and server.c: a client that asks a server for files over a mysocket. What the
-- calls of `myread`, `read` and `fgets` return, one after the other, is an argument.
pub mod Numbers
pub mod Lines
pub mod Server
pub mod Client
mod Whole
mod Tests
