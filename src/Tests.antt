-- ===== src/Tests.antt =====
-- The properties applied to concrete inputs, a module for each part.
mod Memory
mod CommandLine
mod Soc
mod Sockets
mod Srpc
mod Controller
mod SimpleDb
mod GroupList
mod SceneList
mod DeviceList
mod ListFiles
mod ListDevs
mod SceneRecord
mod SocketClient
mod Firmware
