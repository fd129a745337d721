-- ===== src/Lib.antt =====
-- The virtual disk bus driver (bus/): a kernel driver whose disks are served by a process in user
-- mode. The service adds a disk with a buffer that it shares, waits for requests with
-- IOCTL_BUSENUM_GET_REQUEST, moves data between the buffer and its storage, and answers with
-- IOCTL_BUSENUM_SEND_REPLY.
--
-- Parts and files:
--   Irp, Codes, Device    the structures of inc/public.h, of bus/busenum.h and of the kernel, as
--                         far as the driver reads or writes them; INITIALIZE_PNP_STATE,
--                         SET_NEW_PNP_STATE, RESTORE_PREVIOUS_PNP_STATE
--   Kernel                what the kernel answers, as functions of the calls made so far, and the
--                         laws of its cancel-safe queues (IsCsq)
--   Queue                 bus/pnp.c: InitQueue and the callbacks of the queues
--   Memory, Words         byte lists, RtlCopyMemory, byte orders, and 32-bit arithmetic
--   Packet                bus/busenum.c: SetSenseInfo, BusSetupRequest, BusStartPacket,
--                         BusStartNextPacket
--   Scsi                  bus/busenum.c: Bus_ExecuteCommand, Bus_ExecuteSrb, Bus_Scsi
--   Reply                 bus/busenum.c: Bus_CancelIrp, Bus_ProcessReply
--   Ioctl, Property       bus/busenum.c: Bus_FDO_IoCtl, Bus_PDO_IoCtl
--   Drain, Handles        bus/busenum.c: Bus_FDO_Cleanup, Bus_PDO_Cleanup, Bus_CreateClose
--   Disks                 bus/pnp.c: Bus_AddDisk, Bus_InitializePdo, Bus_DestroyPdo, MapBuffer,
--                         UnmapBuffer, Bus_RemoveDisk, Bus_RemoveAllDisks
--   Pnp, BusPnp, DiskPnp  bus/pnp.c: Bus_FDO_PnP; bus/buspdo.c: Bus_PDO_PnP
--   Caps, Text, DiskQuery bus/buspdo.c: the queries of Bus_PDO_PnP, with DEVICE_CAPABILITIES and the
--                         names of bus/busenum.h
--   AddDevice             bus/pnp.c: Bus_AddDevice
--   Driver                bus/busenum.c: DriverEntry, Bus_DriverUnload
--   Debug                 bus/busenum.h: the debug levels and Bus_KdPrint; bus/busenum.c, bus/pnp.c,
--                         bus/power.c: the functions from codes to texts
--   Power, Dispatch       bus/power.c; Bus_IoCtl, Bus_PnP, Bus_Power, Bus_Scsi
--   System                the entries as a step relation on the bus, and the states that a
--                         sequence of IRPs reaches
--   System.Change, .Serial, .Numbers
--                         what a step does to the list of the disks, and their serial numbers
--   Service.Storage       umode/inc/ifaces.h: IDiskStorage, and what it promises
--   Service.File, .Vmdk   umode/disksrv/fileplugin.cpp; umode/vmdkplug/vmdkplugin.cpp with
--                         VixWrapper.cpp
--   Service.Processor     umode/disksrv/disksrv.cpp: CDiskProcessor and its thread; its child
--                         Transport composes it with Packet and Reply, a transfer from end to end
--   Service.Table, .Plugins, .Resources, .Server, .Loop
--                         umode/disksrv/disksrv.cpp: CDiskContainer, CPluginManager, CDiskServer and
--                         the RPC functions; Server.Served puts the server on top of Dispatch, and
--                         Server.World has the calls of the service, the requests to the driver from
--                         elsewhere and the ends of the processors as one step relation
--   Service.Control, .Interface, .Manager
--                         umode/disksrv/disksrv.cpp: InitRpc, Init, Terminate, CtrlHandler,
--                         ServiceMain; OpenBusInterface; GetLastErrorText, CmdInstallService,
--                         CmdRemoveService, main
--   Service.Log           umode/disksrv/filelog.cpp: FileLog
--   Tool                  umode/diskctl/diskctl.cpp: the command line tool, on top of the server
--   Installer             ca/ca.cpp: the custom actions of the installer
--   Witness               the theorems at concrete inputs
--
-- State: a Bus is the bus device with the list of its disks, the queue of the service's requests,
-- and the log of the calls to the kernel, the newest first. A disk that lost its bus stands among
-- the unlinked ones. A request to one disk works on an Io: this disk, the queue and the log. A
-- handler takes the state and an IRP to a state and a status.
--
-- A handler runs as one step. Three of them are also there in parts, between which others run:
-- Bus_AddDisk lets its mutex go behind its check for the serial number, so its rest is a step of its own
-- (late_add), with a check made in any earlier state; IOCTL_BUSENUM_GET_REQUEST holds the lock of one
-- disk at a time in its loop (begin_request, and one event for each disk that the loop is at); and
-- Bus_FDO_Cleanup waits (begin_cleanup, end_cleanup, and `meanwhile` in fdo_cleanup). The source lets
-- more happen than that in one place: BusStartNextPacket takes a request out of the shared queue before
-- it may put it back, so that a BusStartPacket on another disk can find the queue empty in between. Here
-- the start of a packet is one step.
--
-- The step relation has the requests to the bus (control codes, PnP, power, SCSI, create, close and
-- cleanup), those to the disks in its list, and the PnP requests to disks that lost their bus.
-- Between two requests the kernel may cancel an IRP in a queue, the cleanup of the bus may come to
-- its wait, and the loop of a request of the service may come to a disk. The relation leaves out other requests to disks that
-- lost their bus, which read through the null pointer, and the cancellation of a current IRP, which
-- breaks what is shown of the rest (Reply.Cancel).
--
-- An IRP is a value with a number; where it is, in a queue, current, or completed or passed down in
-- the log, is what the theorems count ("owned"). Reading through a null or unset pointer and copying behind
-- a buffer are marked in the log as faults.
--
-- Bounds: ULONG arithmetic wraps at 2 ^ 32. The loops that drain a queue run on fuel, the length
-- of the queue plus one, which is enough since each round takes one IRP out of it.
--
-- The service: the storage of a disk is an interface of operations and laws, which the file disk and
-- the VMware disk fill; the Windows file functions, the VIX disk library, the registry and the
-- plugins are parameters. The shared buffer is one list of bytes, that of the PDO, and what the
-- driver and the service do with it are steps that follow each other, as the request and the reply
-- order them. The loops of the service run over the list of what their waits return.
--
-- Not modelled: the single messages of the debug output and of the log; the header that the MIDL
-- compiler generates (umode/inc/disksrv.h) and the setup project (vdisksetup/); exceptions of
-- storages. Times, priorities and interrupt levels do not appear.
pub mod Prelude
pub mod Caps
pub mod Irp
pub mod Queue
pub mod Words
pub mod Drain
pub mod Disks
pub mod Packet
pub mod Reply
pub mod Pnp
pub mod BusPnp
pub mod AddDevice
pub mod DiskQuery
pub mod DiskPnp
pub mod Power
pub mod Dispatch
pub mod Ioctl
pub mod Property
pub mod Handles
pub mod Scsi
pub mod System
pub mod Text
pub mod Installer
pub mod Service
pub mod Kernel
pub mod Device
pub mod Codes
pub mod Memory
pub mod Debug
pub mod Tool
pub mod Driver
mod Witness
