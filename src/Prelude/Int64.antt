-- ===== src/Prelude/Int64.antt =====
-- Go's int and int64 as 64-bit patterns, with two's-complement wrap-around and signed order.
use content_storage_server.Prelude.Tests.{ltb, leb}
use Prim.Native.Nat.{ℕ, ◌+◌, ◌*◌, ◌%◌}
use mathlib.Core.Bool.{Bool}

-- A bit pattern below 2 ^ 64; one from 2 ^ 63 on stands for itself minus 2 ^ 64.
abbrev pub Int64 : Type 0
Int64 = ℕ

-- The pattern of -1.
abbrev pub minus_one : Int64
minus_one = 18446744073709551615

abbrev pub add : Int64 → Int64 → Int64
add a b = (a + b) % 18446744073709551616

abbrev pub mul : Int64 → Int64 → Int64
mul a b = (a * b) % 18446744073709551616

-- Signed order: adding 2 ^ 63 carries it to the order of the patterns.
abbrev pub offset : Int64 → ℕ
offset a = (a + 9223372036854775808) % 18446744073709551616

-- a < b
abbrev pub slt : Int64 → Int64 → Bool
slt a b = ltb (offset a) (offset b)

-- a <= b
abbrev pub sle : Int64 → Int64 → Bool
sle a b = leb (offset a) (offset b)
