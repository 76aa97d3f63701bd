-- ===== src/SyscallNames/Rows150.antt =====
-- syscall_names/syscall_64.tbl: the rows of the numbers 150 to 299.
use iotrace.Base.{List, [], ◌∷◌, codes}
use iotrace.SyscallNames.Parser.{Row}

abbrev pub rows_from_150 : List Row
rows_from_150 =
    record { number = 150; name = codes "munlock" }
    ∷ record { number = 151; name = codes "mlockall" }
    ∷ record { number = 152; name = codes "munlockall" }
    ∷ record { number = 153; name = codes "vhangup" }
    ∷ record { number = 154; name = codes "modify_ldt" }
    ∷ record { number = 155; name = codes "pivot_root" }
    ∷ record { number = 156; name = codes "_sysctl" }
    ∷ record { number = 157; name = codes "prctl" }
    ∷ record { number = 158; name = codes "arch_prctl" }
    ∷ record { number = 159; name = codes "adjtimex" }
    ∷ record { number = 160; name = codes "setrlimit" }
    ∷ record { number = 161; name = codes "chroot" }
    ∷ record { number = 162; name = codes "sync" }
    ∷ record { number = 163; name = codes "acct" }
    ∷ record { number = 164; name = codes "settimeofday" }
    ∷ record { number = 165; name = codes "mount" }
    ∷ record { number = 166; name = codes "umount2" }
    ∷ record { number = 167; name = codes "swapon" }
    ∷ record { number = 168; name = codes "swapoff" }
    ∷ record { number = 169; name = codes "reboot" }
    ∷ record { number = 170; name = codes "sethostname" }
    ∷ record { number = 171; name = codes "setdomainname" }
    ∷ record { number = 172; name = codes "iopl" }
    ∷ record { number = 173; name = codes "ioperm" }
    ∷ record { number = 174; name = codes "create_module" }
    ∷ record { number = 175; name = codes "init_module" }
    ∷ record { number = 176; name = codes "delete_module" }
    ∷ record { number = 177; name = codes "get_kernel_syms" }
    ∷ record { number = 178; name = codes "query_module" }
    ∷ record { number = 179; name = codes "quotactl" }
    ∷ record { number = 180; name = codes "nfsservctl" }
    ∷ record { number = 181; name = codes "getpmsg" }
    ∷ record { number = 182; name = codes "putpmsg" }
    ∷ record { number = 183; name = codes "afs_syscall" }
    ∷ record { number = 184; name = codes "tuxcall" }
    ∷ record { number = 185; name = codes "security" }
    ∷ record { number = 186; name = codes "gettid" }
    ∷ record { number = 187; name = codes "readahead" }
    ∷ record { number = 188; name = codes "setxattr" }
    ∷ record { number = 189; name = codes "lsetxattr" }
    ∷ record { number = 190; name = codes "fsetxattr" }
    ∷ record { number = 191; name = codes "getxattr" }
    ∷ record { number = 192; name = codes "lgetxattr" }
    ∷ record { number = 193; name = codes "fgetxattr" }
    ∷ record { number = 194; name = codes "listxattr" }
    ∷ record { number = 195; name = codes "llistxattr" }
    ∷ record { number = 196; name = codes "flistxattr" }
    ∷ record { number = 197; name = codes "removexattr" }
    ∷ record { number = 198; name = codes "lremovexattr" }
    ∷ record { number = 199; name = codes "fremovexattr" }
    ∷ record { number = 200; name = codes "tkill" }
    ∷ record { number = 201; name = codes "time" }
    ∷ record { number = 202; name = codes "futex" }
    ∷ record { number = 203; name = codes "sched_setaffinity" }
    ∷ record { number = 204; name = codes "sched_getaffinity" }
    ∷ record { number = 205; name = codes "set_thread_area" }
    ∷ record { number = 206; name = codes "io_setup" }
    ∷ record { number = 207; name = codes "io_destroy" }
    ∷ record { number = 208; name = codes "io_getevents" }
    ∷ record { number = 209; name = codes "io_submit" }
    ∷ record { number = 210; name = codes "io_cancel" }
    ∷ record { number = 211; name = codes "get_thread_area" }
    ∷ record { number = 212; name = codes "lookup_dcookie" }
    ∷ record { number = 213; name = codes "epoll_create" }
    ∷ record { number = 214; name = codes "epoll_ctl_old" }
    ∷ record { number = 215; name = codes "epoll_wait_old" }
    ∷ record { number = 216; name = codes "remap_file_pages" }
    ∷ record { number = 217; name = codes "getdents64" }
    ∷ record { number = 218; name = codes "set_tid_address" }
    ∷ record { number = 219; name = codes "restart_syscall" }
    ∷ record { number = 220; name = codes "semtimedop" }
    ∷ record { number = 221; name = codes "fadvise64" }
    ∷ record { number = 222; name = codes "timer_create" }
    ∷ record { number = 223; name = codes "timer_settime" }
    ∷ record { number = 224; name = codes "timer_gettime" }
    ∷ record { number = 225; name = codes "timer_getoverrun" }
    ∷ record { number = 226; name = codes "timer_delete" }
    ∷ record { number = 227; name = codes "clock_settime" }
    ∷ record { number = 228; name = codes "clock_gettime" }
    ∷ record { number = 229; name = codes "clock_getres" }
    ∷ record { number = 230; name = codes "clock_nanosleep" }
    ∷ record { number = 231; name = codes "exit_group" }
    ∷ record { number = 232; name = codes "epoll_wait" }
    ∷ record { number = 233; name = codes "epoll_ctl" }
    ∷ record { number = 234; name = codes "tgkill" }
    ∷ record { number = 235; name = codes "utimes" }
    ∷ record { number = 236; name = codes "vserver" }
    ∷ record { number = 237; name = codes "mbind" }
    ∷ record { number = 238; name = codes "set_mempolicy" }
    ∷ record { number = 239; name = codes "get_mempolicy" }
    ∷ record { number = 240; name = codes "mq_open" }
    ∷ record { number = 241; name = codes "mq_unlink" }
    ∷ record { number = 242; name = codes "mq_timedsend" }
    ∷ record { number = 243; name = codes "mq_timedreceive" }
    ∷ record { number = 244; name = codes "mq_notify" }
    ∷ record { number = 245; name = codes "mq_getsetattr" }
    ∷ record { number = 246; name = codes "kexec_load" }
    ∷ record { number = 247; name = codes "waitid" }
    ∷ record { number = 248; name = codes "add_key" }
    ∷ record { number = 249; name = codes "request_key" }
    ∷ record { number = 250; name = codes "keyctl" }
    ∷ record { number = 251; name = codes "ioprio_set" }
    ∷ record { number = 252; name = codes "ioprio_get" }
    ∷ record { number = 253; name = codes "inotify_init" }
    ∷ record { number = 254; name = codes "inotify_add_watch" }
    ∷ record { number = 255; name = codes "inotify_rm_watch" }
    ∷ record { number = 256; name = codes "migrate_pages" }
    ∷ record { number = 257; name = codes "openat" }
    ∷ record { number = 258; name = codes "mkdirat" }
    ∷ record { number = 259; name = codes "mknodat" }
    ∷ record { number = 260; name = codes "fchownat" }
    ∷ record { number = 261; name = codes "futimesat" }
    ∷ record { number = 262; name = codes "newfstatat" }
    ∷ record { number = 263; name = codes "unlinkat" }
    ∷ record { number = 264; name = codes "renameat" }
    ∷ record { number = 265; name = codes "linkat" }
    ∷ record { number = 266; name = codes "symlinkat" }
    ∷ record { number = 267; name = codes "readlinkat" }
    ∷ record { number = 268; name = codes "fchmodat" }
    ∷ record { number = 269; name = codes "faccessat" }
    ∷ record { number = 270; name = codes "pselect6" }
    ∷ record { number = 271; name = codes "ppoll" }
    ∷ record { number = 272; name = codes "unshare" }
    ∷ record { number = 273; name = codes "set_robust_list" }
    ∷ record { number = 274; name = codes "get_robust_list" }
    ∷ record { number = 275; name = codes "splice" }
    ∷ record { number = 276; name = codes "tee" }
    ∷ record { number = 277; name = codes "sync_file_range" }
    ∷ record { number = 278; name = codes "vmsplice" }
    ∷ record { number = 279; name = codes "move_pages" }
    ∷ record { number = 280; name = codes "utimensat" }
    ∷ record { number = 281; name = codes "epoll_pwait" }
    ∷ record { number = 282; name = codes "signalfd" }
    ∷ record { number = 283; name = codes "timerfd_create" }
    ∷ record { number = 284; name = codes "eventfd" }
    ∷ record { number = 285; name = codes "fallocate" }
    ∷ record { number = 286; name = codes "timerfd_settime" }
    ∷ record { number = 287; name = codes "timerfd_gettime" }
    ∷ record { number = 288; name = codes "accept4" }
    ∷ record { number = 289; name = codes "signalfd4" }
    ∷ record { number = 290; name = codes "eventfd2" }
    ∷ record { number = 291; name = codes "epoll_create1" }
    ∷ record { number = 292; name = codes "dup3" }
    ∷ record { number = 293; name = codes "pipe2" }
    ∷ record { number = 294; name = codes "inotify_init1" }
    ∷ record { number = 295; name = codes "preadv" }
    ∷ record { number = 296; name = codes "pwritev" }
    ∷ record { number = 297; name = codes "rt_tgsigqueueinfo" }
    ∷ record { number = 298; name = codes "perf_event_open" }
    ∷ record { number = 299; name = codes "recvmmsg" }
    ∷ []
