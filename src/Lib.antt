-- ===== src/Lib.antt =====
-- QuillOS: a model of the kernel's core and the theorems about it.
--
-- The program is a freestanding x86-64 kernel in C++ (quillos/kernel). Its parts keep their state in
-- file-level variables and tables of fixed size, and call one another directly; the timer interrupt
-- and `int 0x80` switch between tasks. Each part is a module of this library: its variables are one
-- record, a function that changes them returns the new record beside its result, and an array is a
-- list. What follows holds of all modules:
--
-- - uint32_t and uint64_t are natural numbers with the wrap-around written out (Prelude/Words);
-- - a loop over a table is a recursion on the list, or one of the three of Prelude/Tables; a loop with
--   another end recurs on its rounds or on fuel;
-- - console output, `irq_save` and `irq_restore` are left out: calls run one after the other;
-- - a table's size is that of the source, and reads outside it give the default entry, which the
--   invariants rule out.
--
-- Scheduler: quillos/kernel/scheduler.cpp and scheduler.h. Scheduler/Types has the records;
--   Scheduler.antt the operations under the names of the source (`do_schedule`, `timer_tick`,
--   `create_task`, `kill_task`, `sleep_ms`; `yield` is `yield_now` and `task_entry_wrapper` after its
--   task has returned is `finish_task`). Scheduler/Steps has the step relation: one step for each call
--   or interrupt. `pick_loop` has 16 rounds of fuel, one for each slot, and never runs out. Link-time
--   addresses are the parameter `Image`. The proofs are in Picking, Invariant, Switching,
--   Preservation, Fairness, Timer and Counting.
-- Memory: quillos/kernel/memory.cpp. Memory/Bitmap has the bit operations on bytes and their laws,
--   checked over all bytes; Memory/Pmm the page allocator over Limine's memory map, which is a
--   parameter; Memory/Heap the block list. `kmalloc` takes fuel for its retries after growth: more
--   than the bytes that the region has left is enough, since each growth commits at least 56. The
--   bytes of user data are not modelled; what `kfree` reads in front of a pointer to no header of the list is
--   its parameter `memory`. Reaching has the heaps that calls lead to.
-- Jobs: quillos/kernel/djob.cpp, djob.h and jobs.h. Jobs/Execute computes a job's result; the loops of
--   JOB_PRIME take fuel, since a bound of 2^32 - 1 never ends; Jobs/Ending has the rounds of the others. Jobs.antt has the choice of a node and
--   the ring of 16 jobs under the names of the source; the part of `submit` after the choice is
--   `dispatch`. `Cluster::submit_job` is the parameter `send`, and the tick counter and the
--   scheduler's task count are arguments. The proofs are in Ring, Targets, Filing, Submitting, Results and
--   Bounds.
-- Users: quillos/kernel/users.cpp and users.h. Users.antt has the table of 8 users and the operations
--   under the names of the source; `find_named` and `create_named` are `find` and `create` past their
--   tests for null. What `save_to_disk` makes of the table is their parameter `save`; Users/Saving has it
--   with `load_from_disk` and `init`, over a `Driver` that stands for the calls of namespace `Disk`. The
--   proofs are in Creation and Restarting.
-- Clipboard: quillos/kernel/clipboard.cpp and clipboard.h. Clipboard.antt has the buffer of 4096 bytes
--   and its operations; `set` is `set_bytes`. The proofs are in Bounds.
-- Filesystem: quillos/kernel/filesystem.cpp and filesystem.h. Filesystem/Types has the records,
--   Filesystem/Paths the texts with their stack buffers (`normalize_path`, `split_path`), Filesystem.antt
--   the operations under the names of the source, each in parts: `make_at` is what `mkdir` and `touch`
--   share, and `write_found`, `read_found` and `remove_found` follow the search. `none` as the outcome of
--   a call is a write past the end of a buffer. Filesystem/Spec is the abstract view, a map from paths to
--   nodes, and what each operation may do to it. The proofs are in Table, Changes, Making, Writing,
--   Refinement, Contents, Buffers, Splitting and Staying.
-- Network: quillos/kernel/network.cpp and network.h. Network/Wire has the headers as bytes and the
--   checksum, whose last loop has three rounds, which are enough for any 32-bit sum; Network.antt the ARP
--   table, the handlers and both directions of UDP. Whether the card takes a frame is the parameter
--   `accept`, and a call of a registered handler is a `Dispatch`. The proofs are in Checksum and Delivery.
-- Utils: quillos/kernel/utils.cpp. `itoa`, whose loop has 20 rounds, one for each digit of a 64-bit number.
-- Cluster: quillos/kernel/cluster.cpp and cluster.h. Cluster.antt has the operations under the names of the
--   source; `handle_event` is the part of `cluster_udp_handler` that runs no job, and `heartbeat` one round
--   of `heartbeat_task_entry`. A call of another component whose result nobody looks at is a `Call` in the
--   result; `submit_job` calls `Network.send_udp` itself, and `execute_job` calls `Jobs.execute`. The
--   proofs are in Peers and Reaching (the step relation), and Exchange, over Network.Delivery and Jobs.Bounds.
-- Processes: quillos/kernel/process.cpp and process.h. Processes.antt has the table of 16 processes and the
--   operations under the names of the source, over Scheduler.create_task and kill_task and Cluster.get_peer;
--   a datagram is a `Sent` in the result. The addresses of the task functions are the parameter `Entries`.
--   `status_report` is one round of `status_report_entry`. The proofs are in Table, Steps, Reaching (the step
--   relation) and Spawning.
-- Shell: quillos/kernel/shell.cpp and shell_mouse.inc. Shell/Types has the modes and the variables, with the
--   users, the filesystem and the clipboard that the shell works on; Lines how a line is taken apart; Names
--   the names of the commands; Commands, Requests, Pasting and Editor what they do; Login the lines of the
--   login, the sign-up and the onboarding. Shell.antt joins them as `perform`, `process_command`, `handle_line`
--   and `shell_update`. A call of another part whose result is only printed is a `Call` in the result, and a
--   printed text is one if it was looked up; what the host's terminal sends is an argument. `none` is a write
--   past a buffer, a null pointer or a loop without an end: `run_values` gets one round more than there are
--   bytes. The proofs are in Safety, Keeping, Performing, Entering, Keys and Staying (the invariant over the states
--   that keys lead to), Admission, Typing, Editing, Numbers and Running.
-- Keyboard: quillos/kernel/keyboard.cpp. `scan_key` is `keyboard_irq_handler` up to the call of
--   `shell_update`, which the handler in Keyboard.antt makes. The proofs are in Scanning, Bounds and Typing,
--   the last over Shell.Typing.
-- Mouse: quillos/kernel/mouse.cpp. Mouse.antt has the handler `mouse_irq` on the bytes of the two ports. The
--   proofs are in Pointing.
-- Interrupts: quillos/kernel/idt.cpp. Interrupts.antt has the mask registers, the handlers and `irq_dispatch`;
--   what a handler does with the frame is the parameter `run`, `outb` and `Scheduler::timer_tick` are the
--   parameters of these names, and all three change one state of the rest of the system. The
--   proofs are in Lines, over Memory.Bitmap, Cascade and Dispatching.
--
-- Not modelled: the drivers and the hardware set-up (disk, e1000, pci, cpu, serial and timer, the
-- descriptor table of idt and interrupts.asm), which are port I/O; the console and the fonts; the
-- boot sequence; the vendored Limine. Nor is the disk bitmap modelled, nor the task functions of
-- the processes, which count and sleep until they are told to stop, nor `Network::poll`, which
-- lets the handlers run between two packets.
pub mod Clipboard
pub mod Cluster
pub mod Filesystem
pub mod Interrupts
pub mod Jobs
pub mod Keyboard
pub mod Memory
pub mod Mouse
pub mod Network
pub mod Prelude
pub mod Processes
pub mod Scheduler
pub mod Shell
pub mod Users
pub mod Utils
