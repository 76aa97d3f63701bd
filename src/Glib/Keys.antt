-- ===== src/Glib/Keys.antt =====
-- The two tests that the program creates its tables with, on the keys that it stores.
use iotrace.Base.{◌≡◌, refl, true, arith, ℤ, eq_ℤ, eq_ℤ_iff, to_int, CString, str_eq, str_eq_iff}
use iotrace.Glib.{Key}

pub eq_ℤ_comm : (a b : ℤ) → eq_ℤ a b ≡ eq_ℤ b a
eq_ℤ_comm a b = ground arith

pub eq_ℤ_trans : (a b c : ℤ) → eq_ℤ a b ≡ true → eq_ℤ b c ≡ eq_ℤ a c
eq_ℤ_trans a b c h = ground arith

pub str_eq_comm : (s t : CString) → str_eq s t ≡ str_eq t s
str_eq_comm s t = ground (arith, str_eq_iff s t, str_eq_iff t s)

pub str_eq_trans : (s t u : CString) → str_eq s t ≡ true → str_eq t u ≡ str_eq s u
str_eq_trans s t u h = ground (arith, str_eq_iff s t, str_eq_iff t u, str_eq_iff s u)

-- `g_int_equal` on keys of type `int`.
abbrev pub int_key : Key
int_key = record {
  Carrier = ℤ;
  same = eq_ℤ;
  same_refl = λ a. (eq_ℤ_iff a a).1 refl;
  same_comm = eq_ℤ_comm;
  same_trans = eq_ℤ_trans;
}

-- `g_str_equal`.
abbrev pub str_key : Key
str_key = record {
  Carrier = CString;
  same = str_eq;
  same_refl = λ s. (str_eq_iff s s).1 refl;
  same_comm = str_eq_comm;
  same_trans = str_eq_trans;
}

-- `g_int_equal` on keys of type `ssize_t`, of which it reads the four low bytes.
abbrev pub block_key : Key
block_key = record {
  Carrier = ℤ;
  same = λ a b. eq_ℤ (to_int a) (to_int b);
  same_refl = λ a. (eq_ℤ_iff (to_int a) (to_int a)).1 refl;
  same_comm = λ a b. eq_ℤ_comm (to_int a) (to_int b);
  same_trans = λ a b c. eq_ℤ_trans (to_int a) (to_int b) (to_int c);
}
