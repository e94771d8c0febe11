-- ===== src/Soc/Command.antt =====
-- The functions of zbSocDriver/zbSocCmd.c that send a command, by what they are about.
pub mod Clusters
pub mod Network
pub mod Light
pub mod Scene
pub mod Query
