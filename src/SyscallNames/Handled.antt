-- ===== src/SyscallNames/Handled.antt =====
-- The names in src/syscall_names.c against the two `switch` statements of src/syscall_handler.c.
use iotrace.Base.{ℕ, ◌≡◌, ◌∙◌, some, List, ℤ, CString}
use iotrace.Glib.{Glib}
use iotrace.Double.{Double}
use iotrace.FdTable
use iotrace.FdTable.{FdTable}
use iotrace.Tracer.{Timespec, ThreadTmps, State}
use iotrace.Tracer.Ready.{IsReady}
use iotrace.SyscallHandler.Stop.{Stop, elapsed}
use iotrace.SyscallHandler.Files.{known_name}
use iotrace.SyscallHandler.Dispatch.{handle_syscall_call, handle_syscall_return}
use iotrace.SyscallHandler.Considered.{Considered, effect}
use iotrace.SyscallHandler.Effects.{HasEffect}
use iotrace.SyscallHandler.Returns.{handle_syscall_return-effect}
use iotrace.SyscallHandler.Saves.{saved, NameRead, HasSaved, handle_syscall_call-HasSaved}
use iotrace.SyscallNames.{syscall_name}
use iotrace.SyscallNames.Kinds.{expected, kind-eq-kind_of}

module _ ⦃g : Glib⦄ ⦃d : Double⦄ where
  -- A number below 512 whose name in the array is that of open, openat, close, a read, a write or a
  -- call that opens descriptors: with the tracee's record and table in place, the mutex free, a clock
  -- that works and a name that can be read, `handle_syscall_call` saves what the call of that name
  -- takes, and `handle_syscall_return` has the effect of the call of that name.
  pub handle_syscall-kind_of :
      (sc : ℤ) (name : CString) (k : Considered)
      → syscall_name sc ≡ some name
      → expected sc name ≡ some k
      → (s : State) (tracee : ℤ) (tmps : ThreadTmps) (t : FdTable) → IsReady s tracee tmps t
      → (stop : Stop) (now : Timespec) → stop.clock ≡ some now
      → (buffer : List ℕ) → NameRead k stop tmps buffer
      → HasSaved s tracee (saved k stop buffer now tmps) (handle_syscall_call stop tracee sc s)
        × HasEffect s tmps.fd_table t
            (effect k stop tmps
              (known_name (FdTable.lookup t tmps.int_a))
              (elapsed tmps.start_time now))
            (handle_syscall_return stop tracee sc s)
  handle_syscall-kind_of sc name k named is_k s tracee tmps t ready stop now clock buffer read =
      let e = kind-eq-kind_of sc name named ∙ is_k in
      (
        handle_syscall_call-HasSaved s tracee tmps ready.found stop now clock buffer sc k e read,
        handle_syscall_return-effect s tracee tmps t ready stop now clock sc k e,
      )
