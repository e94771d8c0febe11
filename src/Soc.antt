-- ===== src/Soc.antt =====
-- The driver of the ZigBee system-on-chip (zbSocDriver/zbSocCmd.c).
pub mod Port
pub mod Command
pub mod Wire
pub mod Api
pub mod Rpc
