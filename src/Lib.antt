-- ===== src/Lib.antt =====
-- Hyperagents mount a guest's disk on the hypervisor and read it from there. So that the mounted
-- image is current, the guest's page cache is flushed first, by sending one of its vCPUs through
-- sys_sync with breakpoints and events of LibVMI. The parts of libhyperagent and their files:
--
--   Engine     the file-level state of libhyperagent/syncmount.cc: flags, breakpoint sites, saved
--              registers. All syncmount objects of a process share it.
--   Callback   int_cb_front and step_cb_front: the event callbacks, as functions on that state, the
--              guest and the event.
--   Patch      do_sync before its loop (`install`, `start_events`) and behind it (`end_events`).
--   Listen     vmi_events_listen: a list of events, each handed to its callback.
--   Sync       do_sync as a whole: install, event loop with the attach of the ghost device, removal
--              of the breakpoints, detach.
--   Clock      timeval_diff.
--   Slots      the vector syncmount_records: the three scans of request_mount and the updates of one
--              record.
--   Threads    any number of threads in request_mount and release_mount, a shared access at a time.
--   Mount      do_nbd_mount, do_nbd_unmount, drop_all_mounts, get_mountpoint.
--   Syncmount  the class syncmount: its constructor, request_mount, release_mount, print_status.
--   Agents     HAMain and HAConfig of libhyperagent/libhyperagent.cc.
--   Testmain   main of libhyperagent/testmain.c, on the operations of HAMain.
--   ClamSpawn  main of clam_spawn/clam_spawn.c, before and behind its fork, and read_waitpid_status.
--   Actuators  the snippets in C: actuators/13.c (Nics), 14.c (Uts) and 15.c (Pages), and the
--              hexadecimal numbers of printf and sscanf (Hex).
--   Debug      print_regs and RDTSC.
--   World      the state of a process, and the environment it runs in.
--   Effect     outcomes of code that can fault, exit, deadlock or go on, and their chaining; the
--              calls of the C library and of std::mutex.
--   Vmi        the calls of LibVMI, as a parameter, and what the code relies on.
--   Base       names of the library, numbers, lists and byte strings.
--   Tests      concrete runs.
--
-- Agents calls Syncmount, which calls Mount for a slot it takes or steals; Mount calls Sync before
-- every mount. All of them share one World. A VMI instance is named by the number of its HAConfig.
--
-- LibVMI, the shell behind system(), the clock, the events that arrive, and what other threads do to
-- the slots while request_mount sleeps are parameters (`Env`). The assumptions on LibVMI (`VmiLaws`)
-- are that a byte written at a resident address is read back, that a write changes no other
-- address, and that control calls leave memory alone.
--
-- The loops of do_sync and request_mount take fuel (`Env.fuel`), one unit per round; a loop that has
-- used it up is `running`. The callback counts events and stops the loop at the 51st, so fuel for
-- the rounds that bring 51 events is enough.
--
-- The loop of actuators/13.c takes fuel too, one unit per device. The snippets' guest and its reads
-- are a parameter of their own (`Peek`), with SHA256.
--
-- In Syncmount other threads act on the slots only while request_mount sleeps, through `Env.others`;
-- Threads lets them act between any two accesses, and Threads/Alone relates the two.
--
-- Slots/View states the mount service that the slot table implements: for each VMI instance its device
-- and the number of its users. Syncmount/Refines relates request_mount and release_mount to it.
--
-- A mutex is a flag: locking one that is held is `deadlock`, and unlocking a free one leaves it
-- free. Signed fields of int type do not reach their bounds; uint64_t arithmetic wraps.
--
-- Agents/Session is a history of HAMain: the states after any calls of its constructor, add_agent,
-- mount_disk and unmount_disk by one thread that unmounts an agent's disk only while it has open
-- mounts, with the number of open mounts of each agent. Its counters are the books (Slots/View/Books)
-- that the mount service is kept to.
--
-- Listen/Intact and Sync/Intact say when events are proper: breakpoint events come from breakpoint
-- sites, and no single step comes before the first of them. Sync/Rounds counts the calls of
-- vmi_events_listen.
--
-- Not modelled: debug output, but for the two helpers in Debug, and the reads that feed it alone; the actuators in
-- Python, which are calls of Rekall and pyvmi; nbd_test.sh.
pub mod Base
pub mod Vmi
pub mod Engine
pub mod Callback
pub mod World
pub mod Effect
pub mod Patch
pub mod Listen
pub mod Sync
pub mod Debug
pub mod Clock
pub mod Slots
pub mod Mount
pub mod Syncmount
pub mod Agents
pub mod Testmain
pub mod ClamSpawn
pub mod Actuators
pub mod Threads
pub mod Tests
