-- ===== src/Sh.antt =====
-- sh.c: the parser of the shell's command lines, and its jobs.
pub mod Lexer
pub mod Parser
pub mod Words
pub mod Strings
pub mod Parsed
pub mod Jobs
pub mod Chains
pub mod Unlink
pub mod Zombies
pub mod Losses
pub mod Commands
pub mod Resume
pub mod Received
pub mod Making
pub mod Started
mod Tests
