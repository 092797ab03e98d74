-- ===== src/World.antt =====
-- The server's surroundings: the calls that the source makes of code outside it, what these answer,
-- and the actions that are made of such calls.
pub mod Messages
pub mod Events
pub mod Action
pub mod Rules
pub mod Gives
pub mod Trace
pub mod Halts
pub mod Answers
pub mod Fails
