-- ===== src/Storage/Notify.antt =====
-- pkg/storage/UnifiedNotificationSystem.go: who waits for a write or for a flush. A waiter is the
-- number of its channel, which has a buffer of one; `signals` is what waits in each channel.
pub mod Swap
pub mod Laws
use content_storage_server.Prelude.{
  ℕ, zero, suc, ◌-◌, Bool, true, false, Option, none, some, List, [], ◌∷◌, ◌++◌, Bytes, ◌==◌,
  is_nil, if◌then◌else◌,
}
use content_storage_server.Prelude.Assoc
use content_storage_server.Prelude.Assoc.{Assoc}
use content_storage_server.Prelude.Slots.{Slots, send_all}
use content_storage_server.Storage.CountedSyncMap
use content_storage_server.Storage.CountedSyncMap.{CountedSyncMap}
use Swap.{remove_swap}

pub record Notifications : Type 0 where
  pub completion_waiters : Assoc (List ℕ)
  pub flush_waiters : List ℕ
  pub signals : Slots (Unit {0})

abbrev pub new_notifications : Notifications
new_notifications = record { completion_waiters = []; flush_waiters = []; signals = λ c. none }

-- A missing key reads as the nil slice.
abbrev pub waiters_of : Assoc (List ℕ) → Bytes → List ℕ
waiters_of m k = elim (Assoc.get m k) [ none ↦ [] | some ws ↦ ws ]

unfoldable pub register_completion_waiter : Notifications → Bytes → ℕ → Notifications
register_completion_waiter n k c = record n {
  completion_waiters =
      Assoc.put n.completion_waiters k (waiters_of n.completion_waiters k ++ c ∷ []);
}

-- What the loop leaves for the key, if it found the channel: the empty slice is deleted.
unfoldable pub put_waiters : Assoc (List ℕ) → Bytes → Option (List ℕ) → Assoc (List ℕ)
put_waiters m k none = m
put_waiters m k (some []) = Assoc.remove m k
put_waiters m k (some (w ∷ ws)) = Assoc.put m k (w ∷ ws)

unfoldable pub unregister_completion_waiter : Notifications → Bytes → ℕ → Notifications
unfolding put_waiters
unregister_completion_waiter n k c = record n {
  completion_waiters =
      put_waiters n.completion_waiters k (remove_swap (waiters_of n.completion_waiters k) c);
}

unfoldable pub notify_completion : Notifications → Bytes → Notifications
notify_completion n k = elim (Assoc.get n.completion_waiters k) [
  | none ↦ n
  | some ws ↦ record n {
    completion_waiters = Assoc.remove n.completion_waiters k;
    signals = send_all n.signals ws tt;
  }
]

unfoldable pub register_flush_waiter : Notifications → ℕ → Notifications
register_flush_waiter n c = record n { flush_waiters = n.flush_waiters ++ c ∷ [] }

unfoldable pub unregister_flush_waiter : Notifications → ℕ → Notifications
unregister_flush_waiter n c = elim (remove_swap n.flush_waiters c) [
  | none ↦ n
  | some ws ↦ record n { flush_waiters = ws }
]

-- With no waiter the map is not looked at.
unfoldable pub check_and_notify_flush_completion {ℓ} :
    {V : Type ℓ} → Notifications → CountedSyncMap V → Notifications
check_and_notify_flush_completion n pending =
    if is_nil n.flush_waiters
    then n
    else if CountedSyncMap.is_empty pending
    then record n { flush_waiters = []; signals = send_all n.signals n.flush_waiters tt }
    else n
