-- ===== src/SyscallNames/Rows300.antt =====
-- syscall_names/syscall_64.tbl: the rows from the number 300 on.
use iotrace.Base.{List, [], ◌∷◌, codes}
use iotrace.SyscallNames.Parser.{Row}

abbrev pub rows_from_300 : List Row
rows_from_300 =
    record { number = 300; name = codes "fanotify_init" }
    ∷ record { number = 301; name = codes "fanotify_mark" }
    ∷ record { number = 302; name = codes "prlimit64" }
    ∷ record { number = 303; name = codes "name_to_handle_at" }
    ∷ record { number = 304; name = codes "open_by_handle_at" }
    ∷ record { number = 305; name = codes "clock_adjtime" }
    ∷ record { number = 306; name = codes "syncfs" }
    ∷ record { number = 307; name = codes "sendmmsg" }
    ∷ record { number = 308; name = codes "setns" }
    ∷ record { number = 309; name = codes "getcpu" }
    ∷ record { number = 310; name = codes "process_vm_readv" }
    ∷ record { number = 311; name = codes "process_vm_writev" }
    ∷ record { number = 312; name = codes "kcmp" }
    ∷ record { number = 313; name = codes "finit_module" }
    ∷ record { number = 314; name = codes "sched_setattr" }
    ∷ record { number = 315; name = codes "sched_getattr" }
    ∷ record { number = 316; name = codes "renameat2" }
    ∷ record { number = 317; name = codes "seccomp" }
    ∷ record { number = 318; name = codes "getrandom" }
    ∷ record { number = 319; name = codes "memfd_create" }
    ∷ record { number = 320; name = codes "kexec_file_load" }
    ∷ record { number = 321; name = codes "bpf" }
    ∷ record { number = 322; name = codes "execveat" }
    ∷ record { number = 323; name = codes "userfaultfd" }
    ∷ record { number = 324; name = codes "membarrier" }
    ∷ record { number = 325; name = codes "mlock2" }
    ∷ record { number = 326; name = codes "copy_file_range" }
    ∷ record { number = 327; name = codes "preadv2" }
    ∷ record { number = 328; name = codes "pwritev2" }
    ∷ record { number = 329; name = codes "pkey_mprotect" }
    ∷ record { number = 330; name = codes "pkey_alloc" }
    ∷ record { number = 331; name = codes "pkey_free" }
    ∷ record { number = 332; name = codes "statx" }
    ∷ record { number = 333; name = codes "io_pgetevents" }
    ∷ record { number = 334; name = codes "rseq" }
    ∷ record { number = 512; name = codes "rt_sigaction" }
    ∷ record { number = 513; name = codes "rt_sigreturn" }
    ∷ record { number = 514; name = codes "ioctl" }
    ∷ record { number = 515; name = codes "readv" }
    ∷ record { number = 516; name = codes "writev" }
    ∷ record { number = 517; name = codes "recvfrom" }
    ∷ record { number = 518; name = codes "sendmsg" }
    ∷ record { number = 519; name = codes "recvmsg" }
    ∷ record { number = 520; name = codes "execve" }
    ∷ record { number = 521; name = codes "ptrace" }
    ∷ record { number = 522; name = codes "rt_sigpending" }
    ∷ record { number = 523; name = codes "rt_sigtimedwait" }
    ∷ record { number = 524; name = codes "rt_sigqueueinfo" }
    ∷ record { number = 525; name = codes "sigaltstack" }
    ∷ record { number = 526; name = codes "timer_create" }
    ∷ record { number = 527; name = codes "mq_notify" }
    ∷ record { number = 528; name = codes "kexec_load" }
    ∷ record { number = 529; name = codes "waitid" }
    ∷ record { number = 530; name = codes "set_robust_list" }
    ∷ record { number = 531; name = codes "get_robust_list" }
    ∷ record { number = 532; name = codes "vmsplice" }
    ∷ record { number = 533; name = codes "move_pages" }
    ∷ record { number = 534; name = codes "preadv" }
    ∷ record { number = 535; name = codes "pwritev" }
    ∷ record { number = 536; name = codes "rt_tgsigqueueinfo" }
    ∷ record { number = 537; name = codes "recvmmsg" }
    ∷ record { number = 538; name = codes "sendmmsg" }
    ∷ record { number = 539; name = codes "process_vm_readv" }
    ∷ record { number = 540; name = codes "process_vm_writev" }
    ∷ record { number = 541; name = codes "setsockopt" }
    ∷ record { number = 542; name = codes "getsockopt" }
    ∷ record { number = 543; name = codes "io_setup" }
    ∷ record { number = 544; name = codes "io_submit" }
    ∷ record { number = 545; name = codes "execveat" }
    ∷ record { number = 546; name = codes "preadv2" }
    ∷ record { number = 547; name = codes "pwritev2" }
    ∷ []
