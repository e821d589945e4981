-- ===== src/Limine.antt =====
-- .tools/limine/Limine-9.6.7-binary/limine.c: the host tool by which the boot image is made
-- bootable (`limine bios-install`, called by scripts/run_qemu.sh).
pub mod Tool
pub mod Endian
pub mod Chs
pub mod Crc
pub mod Device
pub mod Uninstall
pub mod Gpt
pub mod Install
pub mod Enroll
pub mod Args
mod Tests
