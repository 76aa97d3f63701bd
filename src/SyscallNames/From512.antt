-- ===== src/SyscallNames/From512.antt =====
-- src/syscall_names.c: the names of the system calls 512 to 546, those of the x32 ABI.
use iotrace.Base.{List, [], ◌∷◌, CString, codes}

abbrev pub names_from_512 : List CString
names_from_512 =
    codes "rt_sigaction"
    ∷ codes "rt_sigreturn"
    ∷ codes "ioctl"
    ∷ codes "readv"
    ∷ codes "writev"
    ∷ codes "recvfrom"
    ∷ codes "sendmsg"
    ∷ codes "recvmsg"
    ∷ codes "execve"
    ∷ codes "ptrace"
    ∷ codes "rt_sigpending"
    ∷ codes "rt_sigtimedwait"
    ∷ codes "rt_sigqueueinfo"
    ∷ codes "sigaltstack"
    ∷ codes "timer_create"
    ∷ codes "mq_notify"
    ∷ codes "kexec_load"
    ∷ codes "waitid"
    ∷ codes "set_robust_list"
    ∷ codes "get_robust_list"
    ∷ codes "vmsplice"
    ∷ codes "move_pages"
    ∷ codes "preadv"
    ∷ codes "pwritev"
    ∷ codes "rt_tgsigqueueinfo"
    ∷ codes "recvmmsg"
    ∷ codes "sendmmsg"
    ∷ codes "process_vm_readv"
    ∷ codes "process_vm_writev"
    ∷ codes "setsockopt"
    ∷ codes "getsockopt"
    ∷ codes "io_setup"
    ∷ codes "io_submit"
    ∷ codes "execveat"
    ∷ codes "preadv2"
    ∷ []
