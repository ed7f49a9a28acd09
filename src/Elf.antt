-- ===== src/Elf.antt =====
-- Executable images in ELF format: openamp/open-amp/lib/remoteproc/elf_loader.c, with
-- include/openamp/elf_loader.h.
pub mod Format
pub mod Header
pub mod Load
pub mod Firmware
mod Tests
