-- ===== src/Shell.antt =====
-- homework/hw5/5-2: a shell with built-in commands, redirections and pipes. An `argv` array is the
-- list of its strings before the NULL; writing NULL at index i keeps the first i of them.
pub mod Parse
pub mod Argv
pub mod Redirect
pub mod Pipeline
pub mod Run
pub mod Builtin
pub mod Session
mod Tests
