-- ===== src/SyscallNames/From150.antt =====
-- src/syscall_names.c: the names of the system calls 150 to 299.
use iotrace.Base.{List, [], ◌∷◌, CString, codes}

abbrev pub names_from_150 : List CString
names_from_150 =
    codes "munlock"
    ∷ codes "mlockall"
    ∷ codes "munlockall"
    ∷ codes "vhangup"
    ∷ codes "modify_ldt"
    ∷ codes "pivot_root"
    ∷ codes "_sysctl"
    ∷ codes "prctl"
    ∷ codes "arch_prctl"
    ∷ codes "adjtimex"
    ∷ codes "setrlimit"
    ∷ codes "chroot"
    ∷ codes "sync"
    ∷ codes "acct"
    ∷ codes "settimeofday"
    ∷ codes "mount"
    ∷ codes "umount2"
    ∷ codes "swapon"
    ∷ codes "swapoff"
    ∷ codes "reboot"
    ∷ codes "sethostname"
    ∷ codes "setdomainname"
    ∷ codes "iopl"
    ∷ codes "ioperm"
    ∷ codes "create_module"
    ∷ codes "init_module"
    ∷ codes "delete_module"
    ∷ codes "get_kernel_syms"
    ∷ codes "query_module"
    ∷ codes "quotactl"
    ∷ codes "nfsservctl"
    ∷ codes "getpmsg"
    ∷ codes "putpmsg"
    ∷ codes "afs_syscall"
    ∷ codes "tuxcall"
    ∷ codes "security"
    ∷ codes "gettid"
    ∷ codes "readahead"
    ∷ codes "setxattr"
    ∷ codes "lsetxattr"
    ∷ codes "fsetxattr"
    ∷ codes "getxattr"
    ∷ codes "lgetxattr"
    ∷ codes "fgetxattr"
    ∷ codes "listxattr"
    ∷ codes "llistxattr"
    ∷ codes "flistxattr"
    ∷ codes "removexattr"
    ∷ codes "lremovexattr"
    ∷ codes "fremovexattr"
    ∷ codes "tkill"
    ∷ codes "time"
    ∷ codes "futex"
    ∷ codes "sched_setaffinity"
    ∷ codes "sched_getaffinity"
    ∷ codes "set_thread_area"
    ∷ codes "io_setup"
    ∷ codes "io_destroy"
    ∷ codes "io_getevents"
    ∷ codes "io_submit"
    ∷ codes "io_cancel"
    ∷ codes "get_thread_area"
    ∷ codes "lookup_dcookie"
    ∷ codes "epoll_create"
    ∷ codes "epoll_ctl_old"
    ∷ codes "epoll_wait_old"
    ∷ codes "remap_file_pages"
    ∷ codes "getdents64"
    ∷ codes "set_tid_address"
    ∷ codes "restart_syscall"
    ∷ codes "semtimedop"
    ∷ codes "fadvise64"
    ∷ codes "timer_create"
    ∷ codes "timer_settime"
    ∷ codes "timer_gettime"
    ∷ codes "timer_getoverrun"
    ∷ codes "timer_delete"
    ∷ codes "clock_settime"
    ∷ codes "clock_gettime"
    ∷ codes "clock_getres"
    ∷ codes "clock_nanosleep"
    ∷ codes "exit_group"
    ∷ codes "epoll_wait"
    ∷ codes "epoll_ctl"
    ∷ codes "tgkill"
    ∷ codes "utimes"
    ∷ codes "vserver"
    ∷ codes "mbind"
    ∷ codes "set_mempolicy"
    ∷ codes "get_mempolicy"
    ∷ codes "mq_open"
    ∷ codes "mq_unlink"
    ∷ codes "mq_timedsend"
    ∷ codes "mq_timedreceive"
    ∷ codes "mq_notify"
    ∷ codes "mq_getsetattr"
    ∷ codes "kexec_load"
    ∷ codes "waitid"
    ∷ codes "add_key"
    ∷ codes "request_key"
    ∷ codes "keyctl"
    ∷ codes "ioprio_set"
    ∷ codes "ioprio_get"
    ∷ codes "inotify_init"
    ∷ codes "inotify_add_watch"
    ∷ codes "inotify_rm_watch"
    ∷ codes "migrate_pages"
    ∷ codes "openat"
    ∷ codes "mkdirat"
    ∷ codes "mknodat"
    ∷ codes "fchownat"
    ∷ codes "futimesat"
    ∷ codes "newfstatat"
    ∷ codes "unlinkat"
    ∷ codes "renameat"
    ∷ codes "linkat"
    ∷ codes "symlinkat"
    ∷ codes "readlinkat"
    ∷ codes "fchmodat"
    ∷ codes "faccessat"
    ∷ codes "pselect6"
    ∷ codes "ppoll"
    ∷ codes "unshare"
    ∷ codes "set_robust_list"
    ∷ codes "get_robust_list"
    ∷ codes "splice"
    ∷ codes "tee"
    ∷ codes "sync_file_range"
    ∷ codes "vmsplice"
    ∷ codes "move_pages"
    ∷ codes "utimensat"
    ∷ codes "epoll_pwait"
    ∷ codes "signalfd"
    ∷ codes "timerfd_create"
    ∷ codes "eventfd"
    ∷ codes "fallocate"
    ∷ codes "timerfd_settime"
    ∷ codes "timerfd_gettime"
    ∷ codes "accept4"
    ∷ codes "signalfd4"
    ∷ codes "eventfd2"
    ∷ codes "epoll_create1"
    ∷ codes "dup3"
    ∷ codes "pipe2"
    ∷ codes "inotify_init1"
    ∷ codes "preadv"
    ∷ codes "pwritev"
    ∷ codes "rt_tgsigqueueinfo"
    ∷ codes "perf_event_open"
    ∷ codes "recvmmsg"
    ∷ []
