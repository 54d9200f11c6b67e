-- ===== src/Handlers/Validation/Atoi.antt =====
-- strconv.Atoi of Go's standard library: an optional sign and decimal digits, within 64 bits.
use content_storage_server.Prelude.{
  ℕ, ◌+◌, ◌*◌, ◌-◌, ◌%◌, Bool, ◌&&◌, Option, none, some, [], ◌∷◌, Bytes, leb, ltb, ◌==◌,
  if◌then◌else◌,
}
use content_storage_server.Prelude.Int64.{Int64}

abbrev digit : ℕ → Bool
digit x = leb 48 x && leb x 57

-- The value of the digits after `n`.
unfoldable pub digits_from : ℕ → Bytes → Option ℕ
digits_from n [] = some n
digits_from n (x ∷ s) =
    let rest = digits_from (10 * n + (x - 48)) s in if digit x then rest else none

unfoldable pub digits : Bytes → Option ℕ
unfolding digits_from
digits [] = none
digits (x ∷ s) = digits_from 0 (x ∷ s)

abbrev positive : Option ℕ → Option Int64
positive none = none
positive (some n) = if ltb n 9223372036854775808 then some n else none

abbrev negative : Option ℕ → Option Int64
negative none = none
negative (some n) =
    if leb n 9223372036854775808
    then some ((18446744073709551616 - n) % 18446744073709551616)
    else none

unfoldable pub atoi : Bytes → Option Int64
unfolding digits
atoi [] = none
atoi (x ∷ s) =
    if x == 45
    then negative (digits s)
    else if x == 43
    then positive (digits s)
    else positive (digits (x ∷ s))
