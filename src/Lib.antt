-- ===== src/Lib.antt =====
-- A verification library for the ISOBUS task controller that connects AgOpenGPS (AOG) with implements.
--
-- The program. AOG sends UDP frames; `UdpConnections` (src/udp_connections.cpp) cuts them out of the
-- datagrams and hands them to the application, which calls the task controller server `MyTCServer`
-- (src/task_controller.cpp). The server keeps one `ClientState` for each implement on the bus, which
-- it builds from the object pool that the implement uploads, tells the implement which sections to
-- switch on, and stores what the implement reports. The application sends the reported states back.
--
-- The modules, and the code they model.
--   Prelude      lists, association maps, tests and bit fields on the native numbers
--   Isobus       the parameters that stand for the AgIsoStack library: the data dictionary, the
--                objects of a pool and the operations on a pool
--   Hierarchy    include/element_hierarchy.hpp: `build_parent_map`, `any_in_chain`
--   Client       `ClientState` of include/task_controller.hpp and src/task_controller.cpp, one
--                function for each method
--   Server       `MyTCServer`: ValueCommand is `on_value_command`, Setpoints is
--                `update_section_states`, `send_section_setpoint_states` and the other senders,
--                Measurement is `request_measurement_commands`, Activation is
--                `activate_object_pool`, Run is a sequence of calls
--   Udp          src/udp_connections.cpp: `handle_incoming_packets`, `calculate_crc`, `send`, in
--                Udp/Detection `handle_address_detection`, in Udp/Endpoint `get_local_endpoint`
--   Settings     include/settings.hpp and src/settings.cpp: `load`, `save` and the setters
--   AsyncLog     src/async_log.cpp: the queue of lines and the buffer of a thread
--   App          src/app.cpp: the packet handler of `setup_udp_connections`, and in App/HardwareMessage
--                `send_hardware_message`, in App/Heartbeat the heartbeat of `update`
--   App/Watch    src/app.cpp: `check_section_demand`, `describe_section_demand`, `log_section_demand`
--   App/Screen   src/app.cpp: the client of the virtual terminal, from the listener of
--                `setup_vt_client` for numbers to `update_vt_status_strings`, which is App/Screen/Status
--   App/Cyclic   src/app.cpp: the cyclic messages of `update`, `check_tc_address_conflict` and
--                `send_task_controller_status_message`; App/Implements is the diff of the implements
--   App/Circuit  the packet handler, the server and the heartbeat together
--   App/Setup    src/app.cpp: the claims of the addresses in `setup_control_functions`
--   App/Details  src/app.cpp: `derive_implement_details`; App/Navigation the soft keys and `stop`
--   Start        src/main.cpp: `ArgumentProcessor`, `prepare_application`, `run_application_loop`, `main`
--   IopValidator tools/iop_validator.cpp: the checks of an object pool
--   Examples     small concrete inputs
--
-- Conventions. A machine integer is a number with its wrap-around written out by `u8`, `u16` and `u32`;
-- a signed 32-bit value on the bus is the number of its 32 bits. A `std::map` is an association list
-- that is read by `find` and written by `assign`. A control function is the number of its handle. A
-- method that changes its object returns the new object, and what is sent comes back as a list of
-- messages. The callbacks and the application take the same mutex for a whole call, so two threads
-- interleave as a list of calls.
--
-- Bounds. The walk up the parents makes one round more than the map has entries, as the code does. The
-- loops of the receive handlers and of the checksum end at a condition on their state, so they take
-- the number of rounds as fuel and return `none` where it runs out: two rounds are enough for one
-- frame, 256 for a checksum, 33 for a heartbeat, 2501 for a loop of the set-up that waits for up to
-- five seconds. Where the code never ends, the result is `none` for every fuel.
--
-- Not modelled. The CAN and UDP drivers, the NAMEs and the interfaces that the set-up of the application
-- creates, the crash handler, the sinks of the log and the text of most log lines, what only a build for
-- Windows does, and the formatting of floating-point numbers, which is a parameter. The parts of `update`
-- are modelled one by one. In `activate_object_pool` the file of the received bytes is left out, since
-- it does not affect the state.

pub mod Prelude
pub mod Isobus
pub mod Hierarchy
pub mod Client
pub mod Server
pub mod Udp
pub mod Settings
pub mod AsyncLog
pub mod App
pub mod Start
pub mod IopValidator
pub mod Examples
