-- ===== src/Stdio.antt =====
-- The calls of `printf` as data: the format, and the arguments with their types.
use iotrace.Base.{ℕ, List, ℤ, CString}
use iotrace.Double.{Double}

module _ ⦃d : Double⦄ where
  -- `%s`, `%llu`, `%ld` and `%f`.
  pub data Arg : Type 0 where
    text : CString → Arg
    ull : ℕ → Arg
    long : ℤ → Arg
    floating : d.Carrier → Arg

  pub record Printf : Type 0 where
    pub format : CString
    pub args : List Arg
