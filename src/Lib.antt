-- ===== src/Lib.antt =====
-- Developer Dashboard: its native code. The dashboard is a Perl program; what it leaves to C is
-- modelled here.
--
--   native/system_menu_helper_linux.c   a helper process that shows the tray menu. It reads commands
--     as lines of JSON and writes clicks as lines of JSON. Json models its reader (j_skip, j_string,
--     j_value, j_parse, j_get and its kin) and writer (emit_json_string);
--     native/system_menu_helper_win.c holds the same functions. Menu models the items: the tree and its
--     lookup (Menu.Find: find_item), its construction (Menu.Build: item_from_json, build_menu), the
--     commands (Menu.Command: install_roots, set_item_icon, remove_item, handle_command), the events
--     (Menu.Click: emit_click), the files of the icons (Menu.Icons: update_status_icon), the loop
--     around write (Menu.Write: write_all_fd) and the one around read (Menu.Input: on_stdin_ready).
--     handle_command parses its line with Json.Parse.j_parse.
--   GoRoutine012Native.h, GoRoutine012.xs   GoRoutine 0.12, the implementation that is compiled:
--     HtmlEscape.xs includes it. It has workers, which are threads with an interpreter of their own,
--     channels between them, and shared nodes. Channel models a channel and the sections of channel, _channel_send, _channel_receive and _channel_close
--     under its mutex, Channel.Sections the sections in any order, Channel.Queue the queue that a channel
--     with a buffer promises to be, and Channel.Rendezvous a channel without one, as a step relation.
--     Routine models a worker and its control block, Routine.Cancel the calls at it, Routine.Timer its
--     timer beside them (go_timeout_worker), as a step relation, and Routine.World all workers with their
--     count (go_active, wait_all), as another. Its shared nodes are not modelled.
--   GoRoutineNative.h, GoRoutineShared.h   another implementation of workers and of shared values, which
--     is in the repository and which no file of it compiles: nothing includes GoRoutineNative.h, and only
--     that includes GoRoutineShared.h. The values are a graph of nodes under one lock. Shared
--     models the nodes, the growth of their tables (Shared.Reserve), the access by key and by index
--     (Shared.Hash, Shared.Array), scalars and the operations on them (Shared.Scalar), the map of the
--     referents that an import has seen (Shared.Import), and the import of a Perl graph (Shared.Perl,
--     Shared.Graph: dd_shared_import_value, dd_shared_import_into).
--     The workers are threads, each with a control block that other threads
--     cancel, time out, wait for and release. Control models a section under the mutex as a function
--     (mark_cancel and request_cancel for go_control_request_cancel, finish, mark_timeout, loop_head and
--     after_wait for go_timeout_worker, begin_timeout and undo_timeout for go_control_set_timeout), and
--     Control.World the threads at one control as a step relation, a step being one such section; the thread is
--     published there as go of GoRoutine012.xs does it. Box
--     models a scalar that interpreters share (shared_store_sv, shared_copy_sv, shared_concat).
--   GoRoutineProcessNative.h   starts processes. Spawn models what it makes of the arguments and of the
--     options: dd_argv_from_av and dd_option_text (Spawn.Arguments), dd_windows_command_line
--     (Spawn.CommandLine, with Microsoft's rules for taking a line apart in Spawn.CommandLine.Microsoft),
--     dd_child_environment (Spawn.Environment), dd_spawn_process on POSIX with glibc (Spawn.Process)
--     and on Windows (Spawn.Windows). GoRoutineNative.h has copies of the first three.
--   SystemMenuNative.h, SystemMenu.xs   start, feed, drain and stop the tray helper. Supervision models
--     the operations on POSIX with what the system answers as arguments, Supervision.Write the loops
--     around write (write_all_posix), Supervision.Ledger what the operations open and start, and
--     Supervision.World the threads that use them, as a step relation.
--   Native.h   loads libcrypto when it is first needed. Crypto models dd_load_crypto.
--
-- Correspondence. Common has the native numbers, lists measured by them and byte strings. A pointer
-- into a text is the rest of the text. A pointer to a node is a number, 0 being NULL, and the heap a
-- function from numbers to nodes; an allocation that may fail asks `grant`, which says whether the
-- n-th one succeeds. `size_t` and pointers have 64 bits. `NV`, the C double of a shared
-- value, is a parameter, and so are the doubles that count seconds (Seconds), the scalars of
-- Perl and the calls of its API (PerlApi). What C leaves undefined is an outcome of its own.
-- How update_status_icon ends for an icon, the exit(2) of the helper included, is an argument of each
-- command (Publish).
--
-- Fuel. j_parse gives its reader as much fuel as the text needs (fuel_for), the string loop takes one
-- unit for each byte, the import of a graph one for each referent and one more, the doubling of a
-- capacity takes 64, the sweep of icons as many as there are files, and both write_all one for each byte
-- and each interruption; the results say that each is enough.
--
-- Not modelled: the freeing of nodes and of JSON trees, which has no result that can be observed; the
-- lock of the graph, each operation on it being one step; allocation failure in the helper, which ends
-- the process; the shell that dd_spawn_process puts around a command where the C library cannot set a
-- directory; the shared nodes of GoRoutine 0.12, which also hold code, globs and
-- handles; the user interface, the XS glue and the Perl application.
pub mod Box
pub mod Channel
pub mod Common
pub mod Control
pub mod Crypto
pub mod Json
pub mod Menu
pub mod Routine
pub mod Shared
pub mod Spawn
pub mod Supervision
pub mod Tests
