-- ===== src/Handlers/Validation/Utf8.antt =====
-- utf8.ValidString of Go's standard library, as an automaton over the bytes.
use content_storage_server.Prelude.{
  ℕ, zero, suc, Bool, false, ◌&&◌, Option, none, some, [], ◌∷◌, Bytes, leb, ltb, ◌==◌,
  if◌then◌else◌,
}

-- `need` continuation bytes are to come, the next one from `low` to `high`.
pub record Utf8State : Type 0 where
  pub need : ℕ
  pub low : ℕ
  pub high : ℕ

abbrev pub ready : Utf8State
ready = record { need = 0; low = 128; high = 191 }

abbrev state : ℕ → ℕ → ℕ → Utf8State
state n l h = record { need = n; low = l; high = h }

-- The first byte of an encoding: neither overlong forms nor surrogates nor what is above U+10FFFF.
unfoldable pub first_byte : ℕ → Option Utf8State
first_byte x =
    if ltb x 128
    then some ready
    else if ltb x 194
    then none
    else if ltb x 224
    then some (state 1 128 191)
    else if x == 224
    then some (state 2 160 191)
    else if x == 237
    then some (state 2 128 159)
    else if ltb x 240
    then some (state 2 128 191)
    else if x == 240
    then some (state 3 144 191)
    else if ltb x 244
    then some (state 3 128 191)
    else if x == 244
    then some (state 3 128 143)
    else none

unfoldable pub next_byte : ℕ → ℕ → ℕ → ℕ → Option Utf8State
unfolding first_byte
next_byte zero l h x = first_byte x
next_byte (suc n) l h x = if leb l x && leb x h then some (state n 128 191) else none

unfoldable pub run_utf8 : Option Utf8State → Bytes → Bool
unfolding next_byte
run_utf8 none s = false
run_utf8 (some u) [] = u.need == 0
run_utf8 (some u) (x ∷ s) = run_utf8 (next_byte u.need u.low u.high x) s

unfoldable pub valid_utf8 : Bytes → Bool
unfolding run_utf8
valid_utf8 s = run_utf8 (some ready) s
