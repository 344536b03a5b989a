-- ===== src/Prelude/Int.antt =====
-- Signed integers over the native numbers: PostgreSQL's int4 and Go's int32.
use Prim.Native.Nat.{ℕ, ◌-◌, ◌%◌, ◌^◌}
use mamechat.Prelude.Tests.{if◌then◌else◌, ltb}

-- `negsuc n` is -(n + 1).
pub data ℤ : Type 0 where
  pos : ℕ → ℤ
  negsuc : ℕ → ℤ

-- Go's conversion of a 64-bit number to int32, which keeps the low 32 bits.
abbrev pub int32 : ℕ → ℤ
int32 n = let r = n % 2 ^ 32 in if ltb r (2 ^ 31) then pos r else negsuc (2 ^ 32 - 1 - r)
