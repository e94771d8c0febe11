-- ===== src/Lib.antt =====
-- The lighting gateway: a server that lets TCP clients control ZigBee lights through a radio chip on
-- a serial port.
--
-- Parts and files
--   zbSocDriver/zbSocCmd.c, the driver of the chip, is `Soc`. Commands: `Soc.Port` has the check sum
--   (calcFcs) and the writing in pieces (zbSocTransportWrite), `Soc.Command` the command functions,
--   each array written out as in the source. `Soc.Wire` describes the serial protocol on its own, and
--   `Soc.Api` says what each call asks for. Messages from the chip: `Soc.Rpc.Receive` is the reading
--   of a message (zbSocProcessRpc), `Soc.Rpc.Process`, `Zcl` and `Zdo` are the handlers down to the
--   callback, `Soc.Rpc.Report` describes the chip's reports and the callback that each is due.
--   server/Source/socket_server.c, the list of TCP sockets, is `Sockets`.
--   server/Source/interface_srpcserver.c, the messages of the clients, is `Srpc`: `Srpc.Light` and
--   `Srpc.Store` have the handlers, `Srpc.Reply` the messages to the clients, `Srpc.Incoming` the
--   table of handlers and the receiving loop (SRPC_RxCB). `Srpc.Client` describes on its own what a
--   client may ask of the lights.
--   server/Source/zbController.c is `Controller`: the callbacks from the driver; `Controller.MainLoop`
--   is the main loop with both halves of a round, and `Controller.Start` the start of the program with
--   SRPC_Init.
--   client/CClients/Source/socket_client.c is `SocketClient`: the receiving and the handling thread of a
--   client, with the mutex and the list between them. `SocketClient.Interleaving` has the orders of
--   their steps. client/CClients/listDevsCmdLine/Source/listdevs.c is `ListDevs`: what the callback of
--   the client that lists the devices prints. `CommandLine` has what the command line clients send:
--   client/CClients/lightFlashCmdLine/Source/flashled.c, client/CClients/openNetwork/Source/openNetwork.c,
--   and the request of listdevs.c.
--   getFwModel/getFwModel.c and zbFwStart/zbFwStart.c, the tools that ask a chip for its model, are
--   `Firmware`; zbFwStart.c has the same loop and callbacks as the other.
--   server/Source/interface_devicelist.h, interface_grouplist.h and interface_scenelist.h are the
--   interface `Lists`: the operations of the three lists, and the laws that the callers rely on. The
--   SRPC server and the controller take it as a parameter. Every operation gives the lists as it
--   leaves them, since also a search or an enumeration may mark lines of bad format or set errno.
--   server/Source/SimpleDB.c and SimpleDBTxt.c, the text file that a list is stored in, are `SimpleDb`:
--   the file is a list of bytes with positions in it (sdb_get_record, sdb_add_record,
--   sdb_delete_record, sdbtGetRecordCount), and `SimpleDb.Contents` says which list of records a file
--   holds. `SimpleDb.Fields` has the parsers of numbers, hexadecimal fields and quoted
--   strings (sdb_txt_parser_...); no caller asks for a signed number, and `unsigned long` has 32 bits.
--   `SimpleDb.Consolidation` is sdb_consolidate_db with the comments of sdbtErrorComment.
--   `SimpleDb.Parsing` has what the three lists do alike: a line is parsed or marked as bad
--   (sdbtMarkError), and the searches, removals and enumerations go by the parsed record.
--   `SimpleDb.Typed` describes a file as a list of such records, for any `Codec` that reads back what
--   it writes.
--   server/Source/interface_devicelist.c, interface_grouplist.c and interface_scenelist.c are
--   `DeviceList`, `GroupList` and `SceneList`, with the lines of scenes in `SimpleDb.SceneRecord`. Each
--   has a `Line`, which makes it a codec, and `Contents` on its operations. `ListFiles` puts the three
--   behind the interface `Lists`.
--   `Endpoint` has the records of zbSocDriver/zbSocCmd.h that all parts share, `Prelude` the lists,
--   tests, integers and the reading of bytes, `Tests` the properties at concrete inputs.
--
-- How the code is modelled
--   A C function on global state is a function on a record of that state. `write` and `close` append
--   to a list in the state; what `read`, `accept` and `write` return is a parameter. A byte is a
--   number; arithmetic of a uint8_t or uint16_t is written with its wrap-around. Reading through a
--   moving pointer is a `Reader`, whose `none` is a read past the end of the message. A local variable
--   that the code uses before it is set is a field of `Stack`, the model's parameter for what the
--   stack holds. zbSocProcessRpc, socketSeverPoll and the main loops take the results of the system calls as
--   data. socketSeverPoll works on the state of the whole program through a `Part`, which says where
--   the sockets stand in it, and calls back with that state.
--   Of `errno` the database keeps only whether it is ERANGE, the field `erange` of `Db`, which strtoul
--   sets and no function resets. The field `fault` of `Db` says that the code has read or written
--   outside of an array, compared by a null pointer, or does not end, and that of `SocketClient` that
--   it has used freed memory, written a message over the pointer behind it or unlocked a mutex that the thread does not hold;
--   nothing resets them.
--
-- Fuel
--   `transport_loop` has the length of the buffer as fuel and takes at least one byte a round, which is
--   enough for the whole buffer; the loop of socketSeverClose cannot take more rounds than its array
--   has places, and its fuel is one more. The loop of zdoLeaveIndCb removes a device in each round but
--   the last, so one more than there are devices is enough. `rx_loop` and `read_loop` go along the
--   results of the reads. The loops over a file have one round more than the file has bytes, and every
--   round takes a line. The loops that look for an unused number have a round for each number there is,
--   2^8 for scenes and 2^16 for groups, after which they have come round to where they began. The main
--   loops go along a list of rounds. `flash_loop` needs one round more than it sends commands.
--
-- Not modelled
--   Whether the chip gets what zbSocTransportWrite hands to `write`: a failed or short write to the
--   serial port, and the tcflush behind each, which may discard what is not yet sent. Theorems on the
--   serial line are on the bytes handed to `write`. The text of a debug message from the chip, which
--   is only printed.
--   Failures of the calls on a file, and the calls that open, rename and close it; the settings of the
--   serial port and of the sockets; the reading of numbers from the command line, the trace output and
--   memory management; the connecting of a client: input and output.
--   The Android client, which is in another language.
pub mod CommandLine
pub mod Controller
pub mod DeviceList
pub mod Endpoint
pub mod Firmware
pub mod GroupList
pub mod ListDevs
pub mod ListFiles
pub mod Lists
pub mod Prelude
pub mod SceneList
pub mod SimpleDb
pub mod Soc
pub mod SocketClient
pub mod Sockets
pub mod Srpc
pub mod Tests
