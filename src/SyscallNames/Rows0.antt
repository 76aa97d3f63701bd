-- ===== src/SyscallNames/Rows0.antt =====
-- syscall_names/syscall_64.tbl: the rows of the numbers 0 to 149.
use iotrace.Base.{List, [], ◌∷◌, codes}
use iotrace.SyscallNames.Parser.{Row}

abbrev pub rows_from_0 : List Row
rows_from_0 =
    record { number = 0; name = codes "read" }
    ∷ record { number = 1; name = codes "write" }
    ∷ record { number = 2; name = codes "open" }
    ∷ record { number = 3; name = codes "close" }
    ∷ record { number = 4; name = codes "stat" }
    ∷ record { number = 5; name = codes "fstat" }
    ∷ record { number = 6; name = codes "lstat" }
    ∷ record { number = 7; name = codes "poll" }
    ∷ record { number = 8; name = codes "lseek" }
    ∷ record { number = 9; name = codes "mmap" }
    ∷ record { number = 10; name = codes "mprotect" }
    ∷ record { number = 11; name = codes "munmap" }
    ∷ record { number = 12; name = codes "brk" }
    ∷ record { number = 13; name = codes "rt_sigaction" }
    ∷ record { number = 14; name = codes "rt_sigprocmask" }
    ∷ record { number = 15; name = codes "rt_sigreturn" }
    ∷ record { number = 16; name = codes "ioctl" }
    ∷ record { number = 17; name = codes "pread64" }
    ∷ record { number = 18; name = codes "pwrite64" }
    ∷ record { number = 19; name = codes "readv" }
    ∷ record { number = 20; name = codes "writev" }
    ∷ record { number = 21; name = codes "access" }
    ∷ record { number = 22; name = codes "pipe" }
    ∷ record { number = 23; name = codes "select" }
    ∷ record { number = 24; name = codes "sched_yield" }
    ∷ record { number = 25; name = codes "mremap" }
    ∷ record { number = 26; name = codes "msync" }
    ∷ record { number = 27; name = codes "mincore" }
    ∷ record { number = 28; name = codes "madvise" }
    ∷ record { number = 29; name = codes "shmget" }
    ∷ record { number = 30; name = codes "shmat" }
    ∷ record { number = 31; name = codes "shmctl" }
    ∷ record { number = 32; name = codes "dup" }
    ∷ record { number = 33; name = codes "dup2" }
    ∷ record { number = 34; name = codes "pause" }
    ∷ record { number = 35; name = codes "nanosleep" }
    ∷ record { number = 36; name = codes "getitimer" }
    ∷ record { number = 37; name = codes "alarm" }
    ∷ record { number = 38; name = codes "setitimer" }
    ∷ record { number = 39; name = codes "getpid" }
    ∷ record { number = 40; name = codes "sendfile" }
    ∷ record { number = 41; name = codes "socket" }
    ∷ record { number = 42; name = codes "connect" }
    ∷ record { number = 43; name = codes "accept" }
    ∷ record { number = 44; name = codes "sendto" }
    ∷ record { number = 45; name = codes "recvfrom" }
    ∷ record { number = 46; name = codes "sendmsg" }
    ∷ record { number = 47; name = codes "recvmsg" }
    ∷ record { number = 48; name = codes "shutdown" }
    ∷ record { number = 49; name = codes "bind" }
    ∷ record { number = 50; name = codes "listen" }
    ∷ record { number = 51; name = codes "getsockname" }
    ∷ record { number = 52; name = codes "getpeername" }
    ∷ record { number = 53; name = codes "socketpair" }
    ∷ record { number = 54; name = codes "setsockopt" }
    ∷ record { number = 55; name = codes "getsockopt" }
    ∷ record { number = 56; name = codes "clone" }
    ∷ record { number = 57; name = codes "fork" }
    ∷ record { number = 58; name = codes "vfork" }
    ∷ record { number = 59; name = codes "execve" }
    ∷ record { number = 60; name = codes "exit" }
    ∷ record { number = 61; name = codes "wait4" }
    ∷ record { number = 62; name = codes "kill" }
    ∷ record { number = 63; name = codes "uname" }
    ∷ record { number = 64; name = codes "semget" }
    ∷ record { number = 65; name = codes "semop" }
    ∷ record { number = 66; name = codes "semctl" }
    ∷ record { number = 67; name = codes "shmdt" }
    ∷ record { number = 68; name = codes "msgget" }
    ∷ record { number = 69; name = codes "msgsnd" }
    ∷ record { number = 70; name = codes "msgrcv" }
    ∷ record { number = 71; name = codes "msgctl" }
    ∷ record { number = 72; name = codes "fcntl" }
    ∷ record { number = 73; name = codes "flock" }
    ∷ record { number = 74; name = codes "fsync" }
    ∷ record { number = 75; name = codes "fdatasync" }
    ∷ record { number = 76; name = codes "truncate" }
    ∷ record { number = 77; name = codes "ftruncate" }
    ∷ record { number = 78; name = codes "getdents" }
    ∷ record { number = 79; name = codes "getcwd" }
    ∷ record { number = 80; name = codes "chdir" }
    ∷ record { number = 81; name = codes "fchdir" }
    ∷ record { number = 82; name = codes "rename" }
    ∷ record { number = 83; name = codes "mkdir" }
    ∷ record { number = 84; name = codes "rmdir" }
    ∷ record { number = 85; name = codes "creat" }
    ∷ record { number = 86; name = codes "link" }
    ∷ record { number = 87; name = codes "unlink" }
    ∷ record { number = 88; name = codes "symlink" }
    ∷ record { number = 89; name = codes "readlink" }
    ∷ record { number = 90; name = codes "chmod" }
    ∷ record { number = 91; name = codes "fchmod" }
    ∷ record { number = 92; name = codes "chown" }
    ∷ record { number = 93; name = codes "fchown" }
    ∷ record { number = 94; name = codes "lchown" }
    ∷ record { number = 95; name = codes "umask" }
    ∷ record { number = 96; name = codes "gettimeofday" }
    ∷ record { number = 97; name = codes "getrlimit" }
    ∷ record { number = 98; name = codes "getrusage" }
    ∷ record { number = 99; name = codes "sysinfo" }
    ∷ record { number = 100; name = codes "times" }
    ∷ record { number = 101; name = codes "ptrace" }
    ∷ record { number = 102; name = codes "getuid" }
    ∷ record { number = 103; name = codes "syslog" }
    ∷ record { number = 104; name = codes "getgid" }
    ∷ record { number = 105; name = codes "setuid" }
    ∷ record { number = 106; name = codes "setgid" }
    ∷ record { number = 107; name = codes "geteuid" }
    ∷ record { number = 108; name = codes "getegid" }
    ∷ record { number = 109; name = codes "setpgid" }
    ∷ record { number = 110; name = codes "getppid" }
    ∷ record { number = 111; name = codes "getpgrp" }
    ∷ record { number = 112; name = codes "setsid" }
    ∷ record { number = 113; name = codes "setreuid" }
    ∷ record { number = 114; name = codes "setregid" }
    ∷ record { number = 115; name = codes "getgroups" }
    ∷ record { number = 116; name = codes "setgroups" }
    ∷ record { number = 117; name = codes "setresuid" }
    ∷ record { number = 118; name = codes "getresuid" }
    ∷ record { number = 119; name = codes "setresgid" }
    ∷ record { number = 120; name = codes "getresgid" }
    ∷ record { number = 121; name = codes "getpgid" }
    ∷ record { number = 122; name = codes "setfsuid" }
    ∷ record { number = 123; name = codes "setfsgid" }
    ∷ record { number = 124; name = codes "getsid" }
    ∷ record { number = 125; name = codes "capget" }
    ∷ record { number = 126; name = codes "capset" }
    ∷ record { number = 127; name = codes "rt_sigpending" }
    ∷ record { number = 128; name = codes "rt_sigtimedwait" }
    ∷ record { number = 129; name = codes "rt_sigqueueinfo" }
    ∷ record { number = 130; name = codes "rt_sigsuspend" }
    ∷ record { number = 131; name = codes "sigaltstack" }
    ∷ record { number = 132; name = codes "utime" }
    ∷ record { number = 133; name = codes "mknod" }
    ∷ record { number = 134; name = codes "uselib" }
    ∷ record { number = 135; name = codes "personality" }
    ∷ record { number = 136; name = codes "ustat" }
    ∷ record { number = 137; name = codes "statfs" }
    ∷ record { number = 138; name = codes "fstatfs" }
    ∷ record { number = 139; name = codes "sysfs" }
    ∷ record { number = 140; name = codes "getpriority" }
    ∷ record { number = 141; name = codes "setpriority" }
    ∷ record { number = 142; name = codes "sched_setparam" }
    ∷ record { number = 143; name = codes "sched_getparam" }
    ∷ record { number = 144; name = codes "sched_setscheduler" }
    ∷ record { number = 145; name = codes "sched_getscheduler" }
    ∷ record { number = 146; name = codes "sched_get_priority_max" }
    ∷ record { number = 147; name = codes "sched_get_priority_min" }
    ∷ record { number = 148; name = codes "sched_rr_get_interval" }
    ∷ record { number = 149; name = codes "mlock" }
    ∷ []
