-- ===== src/SyscallNames/From0.antt =====
-- src/syscall_names.c: the names of the system calls 0 to 149.
use iotrace.Base.{List, [], ◌∷◌, CString, codes}

abbrev pub names_from_0 : List CString
names_from_0 =
    codes "read"
    ∷ codes "write"
    ∷ codes "open"
    ∷ codes "close"
    ∷ codes "stat"
    ∷ codes "fstat"
    ∷ codes "lstat"
    ∷ codes "poll"
    ∷ codes "lseek"
    ∷ codes "mmap"
    ∷ codes "mprotect"
    ∷ codes "munmap"
    ∷ codes "brk"
    ∷ codes "rt_sigaction"
    ∷ codes "rt_sigprocmask"
    ∷ codes "rt_sigreturn"
    ∷ codes "ioctl"
    ∷ codes "pread64"
    ∷ codes "pwrite64"
    ∷ codes "readv"
    ∷ codes "writev"
    ∷ codes "access"
    ∷ codes "pipe"
    ∷ codes "select"
    ∷ codes "sched_yield"
    ∷ codes "mremap"
    ∷ codes "msync"
    ∷ codes "mincore"
    ∷ codes "madvise"
    ∷ codes "shmget"
    ∷ codes "shmat"
    ∷ codes "shmctl"
    ∷ codes "dup"
    ∷ codes "dup2"
    ∷ codes "pause"
    ∷ codes "nanosleep"
    ∷ codes "getitimer"
    ∷ codes "alarm"
    ∷ codes "setitimer"
    ∷ codes "getpid"
    ∷ codes "sendfile"
    ∷ codes "socket"
    ∷ codes "connect"
    ∷ codes "accept"
    ∷ codes "sendto"
    ∷ codes "recvfrom"
    ∷ codes "sendmsg"
    ∷ codes "recvmsg"
    ∷ codes "shutdown"
    ∷ codes "bind"
    ∷ codes "listen"
    ∷ codes "getsockname"
    ∷ codes "getpeername"
    ∷ codes "socketpair"
    ∷ codes "setsockopt"
    ∷ codes "getsockopt"
    ∷ codes "clone"
    ∷ codes "fork"
    ∷ codes "vfork"
    ∷ codes "execve"
    ∷ codes "exit"
    ∷ codes "wait4"
    ∷ codes "kill"
    ∷ codes "uname"
    ∷ codes "semget"
    ∷ codes "semop"
    ∷ codes "semctl"
    ∷ codes "shmdt"
    ∷ codes "msgget"
    ∷ codes "msgsnd"
    ∷ codes "msgrcv"
    ∷ codes "msgctl"
    ∷ codes "fcntl"
    ∷ codes "flock"
    ∷ codes "fsync"
    ∷ codes "fdatasync"
    ∷ codes "truncate"
    ∷ codes "ftruncate"
    ∷ codes "getdents"
    ∷ codes "getcwd"
    ∷ codes "chdir"
    ∷ codes "fchdir"
    ∷ codes "rename"
    ∷ codes "mkdir"
    ∷ codes "rmdir"
    ∷ codes "creat"
    ∷ codes "link"
    ∷ codes "unlink"
    ∷ codes "symlink"
    ∷ codes "readlink"
    ∷ codes "chmod"
    ∷ codes "fchmod"
    ∷ codes "chown"
    ∷ codes "fchown"
    ∷ codes "lchown"
    ∷ codes "umask"
    ∷ codes "gettimeofday"
    ∷ codes "getrlimit"
    ∷ codes "getrusage"
    ∷ codes "sysinfo"
    ∷ codes "times"
    ∷ codes "ptrace"
    ∷ codes "getuid"
    ∷ codes "syslog"
    ∷ codes "getgid"
    ∷ codes "setuid"
    ∷ codes "setgid"
    ∷ codes "geteuid"
    ∷ codes "getegid"
    ∷ codes "setpgid"
    ∷ codes "getppid"
    ∷ codes "getpgrp"
    ∷ codes "setsid"
    ∷ codes "setreuid"
    ∷ codes "setregid"
    ∷ codes "getgroups"
    ∷ codes "setgroups"
    ∷ codes "setresuid"
    ∷ codes "getresuid"
    ∷ codes "setresgid"
    ∷ codes "getresgid"
    ∷ codes "getpgid"
    ∷ codes "setfsuid"
    ∷ codes "setfsgid"
    ∷ codes "getsid"
    ∷ codes "capget"
    ∷ codes "capset"
    ∷ codes "rt_sigpending"
    ∷ codes "rt_sigtimedwait"
    ∷ codes "rt_sigqueueinfo"
    ∷ codes "rt_sigsuspend"
    ∷ codes "sigaltstack"
    ∷ codes "utime"
    ∷ codes "mknod"
    ∷ codes "uselib"
    ∷ codes "personality"
    ∷ codes "ustat"
    ∷ codes "statfs"
    ∷ codes "fstatfs"
    ∷ codes "sysfs"
    ∷ codes "getpriority"
    ∷ codes "setpriority"
    ∷ codes "sched_setparam"
    ∷ codes "sched_getparam"
    ∷ codes "sched_setscheduler"
    ∷ codes "sched_getscheduler"
    ∷ codes "sched_get_priority_max"
    ∷ codes "sched_get_priority_min"
    ∷ codes "sched_rr_get_interval"
    ∷ codes "mlock"
    ∷ []
