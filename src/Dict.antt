-- ===== src/Dict.antt =====
-- The dictionary programs: homework/hw5/5-3 (convert.c, lookup1.c) and homework/hw11 (lookup5.c,
-- the clients lookup7.c, lookup8.c, lookup9.c, their servers and the two main.c).
pub mod Record
pub mod Convert
pub mod Linear
pub mod Sorted
pub mod Remote
pub mod Look
pub mod Endless
mod Tests
