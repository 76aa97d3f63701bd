-- ===== src/Lib.antt =====
-- iotrace traces a program with ptrace and reports how it used its files. This library models
-- the tracer's tables, its handlers of system calls, its threads and its output, and proves what
-- they compute.
--
-- At each stop of a tracee at a system call, src/main.c calls `handle_syscall_call` or
-- `handle_syscall_return` of src/syscall_handler.c. The call saves the time and some arguments
-- in the record of the tracee (src/thread_temporaries.c). The return takes them up: it changes
-- the table of file descriptors (src/fd_table.c), which tracees may share, and adds to the
-- statistics of files (src/file_stat.c) or of other system calls
-- (src/unconsidered_syscall_stat.c), of which each thread has its own, merged when the thread
-- ends. When all have ended, the statistics are printed and written as JSON
-- (src/json_printer.c), with the names of the system calls from src/syscall_names.c.
--
-- Base: Boolean tests, integers of C, texts and lists. Measures: totals of a weight, and lists
--   that hold the same in another order.
-- Glib: GHashTable as a parameter, a record of operations with the laws that its documentation
--   gives. An iteration visits each key once, in any order. `list_glib` is an instance. Count:
--   how many entries pass a test.
-- Double: the type `double` as a parameter, with the laws of its order that IEEE 754 gives.
-- FdTable: src/fd_table.c, each function between its lock and its unlock. View, Refinement:
--   tables as maps. Names, Short: the buffer of 256 bytes for names. Refused: which operations
--   fault.
-- FileStat: src/file_stat.c. View: an entry as it is seen, with the sizes of blocks as a map.
--   History: the entry after a history of events. Sums, Totals: what it counts, sums and bounds.
--   Sane: what holds of every entry. Merge: two tables joined. Weights, Order: that the order of
--   a history does not matter. Print: `file_stat_print_all`.
-- SyscallStat: src/unconsidered_syscall_stat.c. Summary: histories and their summaries. Order:
--   that their order does not matter. Print: `syscall_stat_print_all`.
-- Stdio: the calls of `printf` as data.
-- Tracer: the state that the functions share, and commands on it, which end well, by `exit(1)`,
--   in a fault or waiting for a mutex. Memory: tables, share counts and mutexes at addresses.
--   Locked: src/fd_table.c with its locks. Temporaries: src/thread_temporaries.c. Ready: a
--   tracee whose record, table and mutex are in place.
-- SyscallHandler: src/syscall_handler.c. Stop: registers, memory and clock at a stop,
--   `read_string` and the elapsed time. Sys: numbers of system calls. Files, Descriptors,
--   Unconsidered: the handlers. Dispatch: the two `switch` statements. Considered: what the
--   calls mean, in terms of operations on the table and events on files. Effects, Returns,
--   Others: the returns. Saves, OtherSaves: the calls. Round: a call and its return together.
--   ReadString: the name of a file.
-- Main: src/main.c. Threads: `threads_add`. Runs: the states that these functions lead to.
--   Sharing: how tables come to be shared by new tracees, and cease to be at `execve`. Wait:
--   `wait_for_syscall` on a list of the answers of `waitpid`, of which it uses one in a round.
--   Loop, End: `start_tracer`, whose loop takes one element of a list in a round, and its end.
--   Visits: all the calls of a tracee. Together, Pool: the statistics of all threads, the count
--   of those that are active, and the wait for them. Output, Results: the rank, the name of the
--   output file, and what is printed at the end. Command: `main` and `start_tracee`, where the
--   parser of the options and `fork` are parameters.
-- Ownership: all tracees together, on the records that they share. Actions: what one thread does
--   between two points where another one may go on, as a data type; the return of `execve` is
--   one of them, and what follows its test of the count is another. Sound: the invariant of
--   records, tables, share counts and mutexes. Owners, Owned, Freed, Preserved, Ended,
--   Continues, Lives, Late, Outcomes: that each action keeps it. Reach: any actions from the
--   start of `main_tracer` on. Here a new thread takes its place in the table of records before
--   its parent's tracer goes on; Main/Sharing has what happens where it does not.
-- Program: src/main.c as a whole, its threads on one state, each with its tracee, its statistics
--   and its place in `start_tracer`; a step lets one thread go on to where another may. Runs,
--   Records: what a step makes of the records and of the statistics of its thread. Orderly,
--   Kept: the invariant of records and threads. Logs, Accounts, Changes: what the returns of
--   each thread added, and what of it is merged. Finished, Joined: the end of the wait for the
--   threads, and of `main_tracer`. Outcomes, Ends: what each thread can do next, and that all
--   can end. Descriptors: the tables of all tracees, without addresses and counts, and what the
--   handlers are to do to them, which is not always what the kernel does. Tables, Lone, Handled,
--   Moved: that the steps do it. Here too a new thread takes its record before its parent's
--   thread goes on.
-- SyscallNames: src/syscall_names.c, the array as it stands, in four parts and a gap. Parser,
--   Table, Rows0, Rows150, Rows300: syscall_names/syscall_parser.sh and the rows of
--   syscall_names/syscall_64.tbl. Bounds: which numbers have a name. Kinds, Handled: the names
--   against the dispatchers.
-- Json: src/json_printer.c as the list of the calls of json-glib that it makes. Tree, Report:
--   the tree that the help text of src/main.c describes. Layout, Unnamed: that this one is
--   written, and where writing fails. Reading: a reader. Shown: the output of `--verbose`
--   against it.
-- Tests: runs at concrete inputs.
--
-- A function of the source has its name here, less the prefix of its module where that is the
-- name of the file: `fd_table_insert_dup` is `FdTable.insert_dup`, and with its lock
-- `Tracer.Locked.fd_table_insert_dup`. Integers of C are numbers whose wrap-around is written
-- out: counters are taken modulo 2 ^ 64, and what is read from a register as an `int` keeps its
-- low 32 bits. The keys of the tables of block sizes are of type `ssize_t`, but GLib hashes and
-- compares them as `int`, so that only their low 32 bits tell them apart; the model does the
-- same. The rounds of the loop of `read_string` are counted down from the length of the buffer
-- in words, so that the model makes exactly the rounds that the loop can make. In the output,
-- `none` stands for a read or a write out of bounds.
--
-- Not modelled: the signals and `ptrace` requests at the start of a tracee, and the text of the
-- help; what json-glib makes of its calls; the parser of options, ptrace, the kernel and GLib,
-- which are parameters; that PTRACE_GETEVENTMSG writes eight bytes to a variable of four in
-- `wait_for_syscall`; that a share count, a `guint`, wraps around, which takes 2 ^ 32 tracees on
-- one table. The programs in test/ are only there to be traced. One command runs at a time, and
-- in Ownership and Program a whole handler does; but others may go on inside the return of
-- `execve`, between its test of the count and what follows, which is one action. Where a
-- function holds a lock of its own during all of its work, as those of src/thread_temporaries.c
-- do, the lock is left out.
pub mod Base
pub mod Glib
pub mod FdTable
pub mod SyscallStat
pub mod Double
pub mod FileStat
pub mod Tracer
pub mod SyscallHandler
pub mod Main
pub mod Stdio
pub mod Json
pub mod Ownership
pub mod Program
pub mod SyscallNames
pub mod Tests
