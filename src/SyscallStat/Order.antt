-- ===== src/SyscallStat/Order.antt =====
-- The summary of a history of system calls does not depend on the order of the calls.
use iotrace.Base.{◌≡◌, refl, [], ◌∷◌, arith, if◌then◌else◌, total, Same, ℤ, eq_ℤ}
use iotrace.SyscallStat.Summary.{Calls, calls_of, time_of, summary}

calls_of-total :
    (sc : ℤ) (cs : Calls) → calls_of sc cs ≡ total (λ x. if eq_ℤ x.0 sc then 1 else 0) cs
calls_of-total sc [] = refl
calls_of-total sc ((k, ns) ∷ cs) = omega (arith, calls_of-total sc cs)

time_of-total :
    (sc : ℤ) (cs : Calls) → time_of sc cs ≡ total (λ x. if eq_ℤ x.0 sc then x.1 else 0) cs
time_of-total sc [] = refl
time_of-total sc ((k, ns) ∷ cs) = omega (arith, time_of-total sc cs)

pub summary-Same : (sc : ℤ) (cs ds : Calls) → Same cs ds → summary sc cs ≡ summary sc ds
summary-Same sc cs ds h = ground (
  arith,
  calls_of-total sc cs,
  calls_of-total sc ds,
  time_of-total sc cs,
  time_of-total sc ds,
  h (λ x. if eq_ℤ x.0 sc then 1 else 0),
  h (λ x. if eq_ℤ x.0 sc then x.1 else 0),
)
