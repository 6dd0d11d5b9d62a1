-- ===== src/Kernel.antt =====
-- What the programs call of the operating system: the descriptor calls. They are parameters, with
-- what the manual pages say of them as named laws.
pub mod Defs
pub mod Simulated
pub mod Rewire
