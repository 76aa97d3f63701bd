-- ===== src/SyscallNames/From300.antt =====
-- src/syscall_names.c: the names of the system calls 300 to 334, the last ones before the gap.
use iotrace.Base.{List, [], ◌∷◌, CString, codes}

abbrev pub names_from_300 : List CString
names_from_300 =
    codes "fanotify_init"
    ∷ codes "fanotify_mark"
    ∷ codes "prlimit64"
    ∷ codes "name_to_handle_at"
    ∷ codes "open_by_handle_at"
    ∷ codes "clock_adjtime"
    ∷ codes "syncfs"
    ∷ codes "sendmmsg"
    ∷ codes "setns"
    ∷ codes "getcpu"
    ∷ codes "process_vm_readv"
    ∷ codes "process_vm_writev"
    ∷ codes "kcmp"
    ∷ codes "finit_module"
    ∷ codes "sched_setattr"
    ∷ codes "sched_getattr"
    ∷ codes "renameat2"
    ∷ codes "seccomp"
    ∷ codes "getrandom"
    ∷ codes "memfd_create"
    ∷ codes "kexec_file_load"
    ∷ codes "bpf"
    ∷ codes "execveat"
    ∷ codes "userfaultfd"
    ∷ codes "membarrier"
    ∷ codes "mlock2"
    ∷ codes "copy_file_range"
    ∷ codes "preadv2"
    ∷ codes "pwritev2"
    ∷ codes "pkey_mprotect"
    ∷ codes "pkey_alloc"
    ∷ codes "pkey_free"
    ∷ codes "statx"
    ∷ codes "io_pgetevents"
    ∷ codes "rseq"
    ∷ []
