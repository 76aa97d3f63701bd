-- ===== src/SyscallHandler/Sys.antt =====
-- The numbers of the system calls that src/syscall_handler.c names: those of sys/syscall.h on
-- x86-64, as syscall_names/syscall_64.tbl has them.
use iotrace.Base.{ℤ, pos}

abbrev pub read : ℤ
read = pos 0

abbrev pub write : ℤ
write = pos 1

abbrev pub open_file : ℤ
open_file = pos 2

abbrev pub close : ℤ
close = pos 3

abbrev pub ioctl : ℤ
ioctl = pos 16

abbrev pub pread64 : ℤ
pread64 = pos 17

abbrev pub pwrite64 : ℤ
pwrite64 = pos 18

abbrev pub readv : ℤ
readv = pos 19

abbrev pub writev : ℤ
writev = pos 20

abbrev pub pipe : ℤ
pipe = pos 22

abbrev pub dup : ℤ
dup = pos 32

abbrev pub dup2 : ℤ
dup2 = pos 33

abbrev pub socket : ℤ
socket = pos 41

abbrev pub accept : ℤ
accept = pos 43

abbrev pub socketpair : ℤ
socketpair = pos 53

abbrev pub execve : ℤ
execve = pos 59

abbrev pub fcntl : ℤ
fcntl = pos 72

abbrev pub epoll_create : ℤ
epoll_create = pos 213

abbrev pub openat : ℤ
openat = pos 257

abbrev pub eventfd : ℤ
eventfd = pos 284

abbrev pub accept4 : ℤ
accept4 = pos 288

abbrev pub eventfd2 : ℤ
eventfd2 = pos 290

abbrev pub epoll_create1 : ℤ
epoll_create1 = pos 291

abbrev pub dup3 : ℤ
dup3 = pos 292

abbrev pub pipe2 : ℤ
pipe2 = pos 293

abbrev pub preadv : ℤ
preadv = pos 295

abbrev pub pwritev : ℤ
pwritev = pos 296

abbrev pub preadv2 : ℤ
preadv2 = pos 327

abbrev pub pwritev2 : ℤ
pwritev2 = pos 328
