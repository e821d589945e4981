-- ===== src/Limine/Install.antt =====
-- `bios_install` in limine.c, from `device_init` on. Its parts are in the modules below, and in
-- `Limine.Gpt`.
pub mod Mbr
pub mod Stage2
pub mod Write
pub mod Steps
pub mod Gpt
pub mod Checks
pub mod Split
pub mod Stages
pub mod Outcome
pub mod Later
mod Tests
use cell.Base.{ℕ}
