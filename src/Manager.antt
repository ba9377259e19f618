-- ===== src/Manager.antt =====
-- The command line tool xhyve-manager (src/xhyve-manager.c, include/xhyve-manager): the
-- configuration of a machine, the arguments that it starts xhyve with, and the commands.
pub mod Config
pub mod Plain
pub mod Reload
pub mod Launch
pub mod Arguments
pub mod Commands
mod Tests
