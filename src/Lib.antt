-- ===== src/Lib.antt =====
-- audioctl: the volume of single applications on macOS. A virtual audio device takes what the
-- applications play; a router copies it to a physical device; a service keeps the volume of each
-- application; the driver and the control program talk to the service over a local socket.
--
-- The parts and the files that model them:
--
-- Base: what all parts share. Base/Float: a float as its bit pattern and C's comparison of floats;
-- Base/Bytes: little-endian fields and text as bytes; Base/Decimal and Base/Line: decimal numbers
-- and lines as the C library writes and reads them; Base/Status: status codes of CoreAudio;
-- Base/Lists: C arrays.
--
-- Router: src/audio_router.c, include/audio_router.h. Router/Ring is RouterRingBuffer with
-- rb_init, rb_destroy, rb_update_stats, rb_write and rb_read; the positions wrap at 2 ^ 32 as in
-- the code. Router/Callbacks is input_callback and output_callback, Router/Context the state
-- g_router, Router/Lifecycle audio_router_start, _start_with_volume, _stop, _get_stats and
-- _get_performance_info, Router/Monitor its monitor thread, _is_running and
-- _get_physical_device_uid. Router/Ring/Fifo is the queue that the ring buffer implements; its
-- counters are those of the ring buffer.
--
-- Ipc: src/ipc and include/ipc. Ipc/Protocol is ipc_protocol.c and the packed structures.
-- Ipc/Registry is the list of clients of ipc_server.c with its operations; Ipc/Registry/Refine
-- states the map that it implements. Ipc/Connections is the list of open sockets. Ipc/Server is
-- the rest of ipc_server.c: Startup ipc_server_init, Dispatch the switch of handle_client_message,
-- Reply send_response, and the events and turns of ipc_server_run. Ipc/Client is ipc_client.c:
-- Requests its queries, Cache the volume cache, Reconnect the reconnection, Delivery a message
-- that comes through whole. Ipc/Interop puts the client and the server together: EndToEnd sends a
-- request, carries it out and reads the reply.
--
-- Driver: src/driver. Driver/Device is virtual_audio_device.c, with Driver/Device/Memory for its
-- creation and destruction; Driver/Clients and Driver/Volume are app_volume_driver.c, which uses
-- Ipc/Client. Driver/Clients/Registered states the directory that the table of slots implements.
-- Driver/Loopback is the IO of virtual_audio_driver.c: VirtualAudioDriver_StartIO, _StopIO,
-- _GetZeroTimeStamp, _WillDoIOOperation and _DoIOOperation; Driver/Loopback/Queue states the queue
-- between output and input. Driver/Properties is its _HasProperty, _IsPropertySettable,
-- _GetPropertyDataSize, _GetPropertyData and _SetPropertyData; Driver/PlugIn is the reference count,
-- the initialisation, the clients and the calls that do nothing; Driver/PlugIn/Host is a host that
-- makes any calls in any order.
--
-- Control: src/app_volume_control.c. Control/Array is AppVolumeList with its loops by index,
-- Control the functions on it and the requests that they send with Ipc/Client; Control/Spec is the
-- list of at most 64 entries that the array implements; Control/Listing is app_volume_cli_list.
--
-- Service: src/service_manager.c, the PID file and the daemon. Its world says what the file holds,
-- which processes there are and which of them may be signalled. Service/Report is
-- print_service_status.
--
-- Paths: src/constants.c, the home directory of the user, the support directory and the paths of
-- the files in it, over what the system tells of users and a file system.
--
-- Manager: src/virtual_device_manager.c, the way to the virtual device and back. The calls of
-- CoreAudio are a record over a type of states, which may answer anything; going there and back in
-- Manager/Switch is shown for a machine on which every call works at once, the record IsStable. Manager/Status is virtual_device_get_info and the reports up to
-- virtual_device_print_status.
--
-- Devices: src/audio_control.c, the devices as the program sees them: finding one by its UID, its
-- type, volume and state in Devices, setting the volume and the default device in Devices/Change,
-- and getDeviceInfo and getDeviceList as a whole in Devices/Info; Devices/Info/Shown follows the
-- list to the output of the command.
--
-- Cli: src/main.c. Cli/Options is the parser of the options of list and the devices that they
-- choose, with Cli/Reference as its independent description; Cli/Numbers reads a device number;
-- Cli/Set and Cli/Switch are the two forms of set, the volume and the device; Cli/Virtual is
-- use-virtual and use-physical, with the manager's activation; Cli/App is the app- commands;
-- Cli/Session is what they and virtual-status tell after use-virtual; Cli/Route is the choice of
-- the command in main, and the arguments that spawn_router gives; Cli/Print is what list shows of
-- a device, as data; Cli/Background is the two background processes, internal-route and
-- internal-ipc-service, over the callbacks and the turns that the world gives them, and
-- Ipc/Server/Descriptors what the second leaves open; Cli/Spawn is their start, with what pkill
-- leaves of the processes as a parameter.
--
-- How the code corresponds to the models: a struct is a record, a linked list or an array a List,
-- a null pointer or a descriptor -1 is none. A function that writes through a pointer returns the
-- new state behind its result. A lock makes an operation one step. Process ids, floats and status
-- codes are the 32-bit patterns of the code; sums, differences and products of uint32_t wrap at 2
-- ^ 32. What the kernel, CoreAudio, malloc and the clock answer are arguments, as records
-- (Answers, Attempt, Exchange, Memory, Event, Turn); the context of the IPC client also keeps what
-- its socket was given, which is no field of the code. Products and quotients of floats, which
-- round, are parameters; the one hypothesis about them is that no frames take no ticks.
--
-- Bounds and fuel: every loop is structural recursion on its list or its count; a loop by index
-- counts the entries that are left. The one bound on a list in the code, the 10000 turns of
-- remove_connection, is kept; that it always removes is shown for at most that many connections. The
-- five searches and the three tries of src/virtual_device_manager.c are counts. The main loop of
-- the server runs over the turns that the world gives it. Ten digits are written of a number,
-- which is enough below 2 ^ 32.
--
-- Not modelled: the interleaving of one audio callback with the other inside a call; log lines,
-- and sleeps that no result depends on; that the start and the stop of the router call the start
-- and the stop of its monitor thread; the usage texts, the command apps and the view of the log
-- in src/main.c; how printed values are laid out; src/audio_apps.m, an Objective-C query of the
-- running applications.
pub mod Base
pub mod Router
pub mod Ipc
pub mod Driver
pub mod Control
pub mod Service
pub mod Manager
pub mod Cli
pub mod Devices
pub mod Paths
