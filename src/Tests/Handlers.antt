-- ===== src/Tests/Handlers.antt =====
-- Runs of src/syscall_handler.c.
use iotrace.Base.{ℕ, ◌≡◌, refl, true, some, List, [], ◌∷◌, arith, ℤ, pos, length, take, to_int, inl}
use iotrace.Glib.Lists.{list_glib}
use iotrace.FdTable
use iotrace.FdTable.{FdTable, filename_buff_size}
use iotrace.FdTable.Refinement.{run}
use iotrace.Tracer.{and_then, ThreadTmps}
use iotrace.SyscallHandler.Sys
use iotrace.SyscallHandler.Stop.{elapsed, read_string, c_string, low_bytes, word_bytes, has_nul}
use iotrace.SyscallHandler.Files.{known_name}
use iotrace.SyscallHandler.Dispatch.{handle_syscall_call, handle_syscall_return}
use iotrace.SyscallHandler.Considered.{read, write, close, effect}
use iotrace.SyscallHandler.Effects.{HasEffect}
use iotrace.SyscallHandler.Returns.{handle_syscall_return-effect}
use iotrace.Base.{codes}
use iotrace.SyscallNames.{syscall_name}
use iotrace.SyscallNames.Handled.{handle_syscall-kind_of}
use iotrace.FdTable.View.{view}
use iotrace.FdTable.Refused.{FirstRefused}
use iotrace.Tracer.{fault}
use iotrace.Base.{◌↔◌}
use iotrace.SyscallHandler.Others.{Ends, counted, other_ops, handle_syscall_return-other}
use iotrace.SyscallHandler.Saves.{saved, HasSaved, handle_syscall_call-HasSaved}
use iotrace.SyscallHandler.Round.{call_return-effect}
use iotrace.SyscallHandler.ReadString.{text, read_string-Holds}
use iotrace.Tests.Data.{
  whole_double, table, tracee, tmps, buffer, state, state-IsReady, data_word, stop_at, start, end,
}

call_return-effect_example :
    (records : List (ℤ × ThreadTmps)) × HasEffect
      (record state { thread_tmps_table = records })
      0
      table
      (effect read
        (stop_at (pos 5) end)
        (saved read (stop_at (pos 3) start) buffer start tmps)
        (known_name (FdTable.lookup table (to_int (pos 3))))
        (elapsed start end))
      (and_then
        (handle_syscall_call (stop_at (pos 3) start) tracee Sys.read state)
        (λ _. handle_syscall_return (stop_at (pos 5) end) tracee Sys.read))
call_return-effect_example =
    call_return-effect state tracee tmps table state-IsReady (stop_at (pos 3) start)
      (stop_at (pos 5) end) start end refl refl buffer Sys.read read refl tt

handle_syscall_return-effect_example :
    HasEffect state 0 table
      (effect close
        (stop_at (pos 0) end)
        tmps
        (known_name (FdTable.lookup table (pos 3)))
        (elapsed tmps.start_time end))
      (handle_syscall_return (stop_at (pos 0) end) tracee Sys.close state)
handle_syscall_return-effect_example =
    handle_syscall_return-effect state tracee tmps table state-IsReady (stop_at (pos 0) end) end
      refl Sys.close close refl

handle_syscall_call-HasSaved_example :
    HasSaved state tracee
      (saved write (stop_at (pos 1) start) buffer start tmps)
      (handle_syscall_call (stop_at (pos 1) start) tracee Sys.write state)
handle_syscall_call-HasSaved_example =
    handle_syscall_call-HasSaved state tracee tmps state-IsReady.found (stop_at (pos 1) start) start
      refl buffer Sys.write write refl tt

handle_syscall_return-other_example :
    Ends
      (counted state ((Sys.dup, elapsed tmps.start_time end) ∷ []))
      0
      (run table (other_ops Sys.dup tmps (to_int (pos 7))))
      (handle_syscall_return (stop_at (pos 7) end) tracee Sys.dup state)
    × ((handle_syscall_return (stop_at (pos 7) end) tracee Sys.dup state ≡ fault)
        ↔ FirstRefused (view table) (other_ops Sys.dup tmps (to_int (pos 7))))
handle_syscall_return-other_example =
    handle_syscall_return-other state tracee tmps table state-IsReady (stop_at (pos 7) end) end refl
      Sys.dup refl refl

data_word-has_nul : has_nul (text (data_word ∷ [])) ≡ true
unfolding has_nul word_bytes low_bytes
data_word-has_nul = refl

read_string_example :
    (filled : List ℕ) × (read_string (stop_at (pos 0) start) 64 buffer filename_buff_size
      ≡ some filled)
    × (length filled ≡ filename_buff_size)
    × (c_string filled ≡ take 255 (c_string (text (data_word ∷ []))))
read_string_example =
    read_string-Holds (stop_at (pos 0) start) 64 buffer (data_word ∷ []) refl (refl, tt)
      (omega arith) (inl data_word-has_nul)

-- The number 3 is that of close.
handle_syscall-kind_of_example :
    HasSaved state tracee
      (saved close (stop_at (pos 0) end) buffer end tmps)
      (handle_syscall_call (stop_at (pos 0) end) tracee (pos 3) state)
    × HasEffect state 0 table
        (effect close
          (stop_at (pos 0) end)
          tmps
          (known_name (FdTable.lookup table tmps.int_a))
          (elapsed tmps.start_time end))
        (handle_syscall_return (stop_at (pos 0) end) tracee (pos 3) state)
unfolding syscall_name
handle_syscall-kind_of_example =
    handle_syscall-kind_of (pos 3) (codes "close") close refl refl state tracee tmps table
      state-IsReady (stop_at (pos 0) end) end refl buffer tt
