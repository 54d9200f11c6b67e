-- ===== src/Prelude/Slots.antt =====
-- Go channels with a buffer of one message that the program only sends to without blocking. A
-- channel is known by a number; `slots c` is the message that waits in channel `c`.
use content_storage_server.Prelude.Tests.{◌==◌, if◌then◌else◌}
use Prim.Native.Nat.{ℕ}
use mathlib.Core.Path.{◌≡◌}
use mathlib.Core.Option.{Option, none, some}
use mathlib.Core.List.{List, [], ◌∷◌}
use native.Mathlib.Omega.{arith}

abbrev pub Slots {ℓ} : Type ℓ → Type ℓ
Slots A = ℕ → Option A

abbrev pub or_else {ℓ} : {A : Type ℓ} → Option A → A → A
or_else none a = a
or_else (some b) a = b

module _ {ℓ} {A : Type ℓ} where
  -- select { case ch <- a: default: }
  unfoldable pub try_send : Slots A → ℕ → A → Slots A
  try_send s c a d = if c == d then some (or_else (s c) a) else s d

  -- The same for each channel of a list.
  unfoldable pub send_all : Slots A → List ℕ → A → Slots A
  send_all s [] a = s
  send_all s (c ∷ cs) a = send_all (try_send s c a) cs a

  -- A message that waits is never overwritten.
  pub try_send-keeps : (s : Slots A) (c d : ℕ) (a b : A) → s d ≡ some b → try_send s c a d ≡ some b
  unfolding try_send
  try_send-keeps s c d a b h = ground arith
