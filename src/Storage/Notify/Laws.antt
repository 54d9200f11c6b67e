-- ===== src/Storage/Notify/Laws.antt =====
-- What the notifications of pkg/storage/UnifiedNotificationSystem.go promise to those who wait.
use content_storage_server.Prelude.{
  ℕ, ◌+◌, ◌-◌, ◌≡◌, refl, ◌&&◌, Option, none, some, List, [], ◌∷◌, ◌++◌, arith, Bytes, ◌==◌,
  Option-cases, inl, inr, if◌then◌else◌, str_eq, str_eq_iff, ==_iff, not,
}
use content_storage_server.Prelude.Assoc
use content_storage_server.Prelude.Assoc.{Assoc, get-put, get-remove}
use content_storage_server.Prelude.Slots.{Slots, try_send, send_all}
use content_storage_server.Storage.CountedSyncMap
use content_storage_server.Storage.CountedSyncMap.{CountedSyncMap}
use content_storage_server.Storage.Notify.{
  Notifications, waiters_of, register_completion_waiter, put_waiters, unregister_completion_waiter,
  notify_completion, check_and_notify_flush_completion,
}
use content_storage_server.Storage.Notify.Swap.{
  remove_swap, occurs, one_if, occurs-remove_swap, remove_swap_absent,
}

-- Every channel of the list has a message afterwards; no other channel changes.
pub send_all-signals :
    (s : Slots (Unit {0})) (cs : List ℕ) (c : ℕ)
    → send_all s cs tt c ≡ (if 0 == occurs cs c then s c else some tt)
unfolding send_all try_send occurs
send_all-signals s [] c = refl
send_all-signals s (d ∷ cs) c = ground (arith, send_all-signals (try_send s d tt) cs c)

occurs-append : (xs ys : List ℕ) (d : ℕ) → occurs (xs ++ ys) d ≡ occurs xs d + occurs ys d
unfolding occurs
occurs-append [] ys d = omega arith
occurs-append (x ∷ xs) ys d = omega (arith, occurs-append xs ys d)

same_count :
    (m : Assoc (List ℕ)) (k j : Bytes) (d : ℕ)
    → k ≡ j
    → occurs (waiters_of m k) d ≡ occurs (waiters_of m j) d
same_count m k j d e = rw e

-- How often channel `c` waits for the write of `k`.
abbrev pub waiting : Notifications → Bytes → ℕ → ℕ
waiting n k c = occurs (waiters_of n.completion_waiters k) c

pub waiting-register :
    (n : Notifications) (k j : Bytes) (c d : ℕ)
    → waiting (register_completion_waiter n k c) j d
      ≡ waiting n j d + one_if (str_eq k j && (c == d))
unfolding register_completion_waiter occurs
waiting-register n k j c d =
    let ws = waiters_of n.completion_waiters k in
    ground (
      arith,
      get-put n.completion_waiters k j (ws ++ c ∷ []),
      occurs-append ws (c ∷ []) d,
      str_eq_iff k j,
    )

waiting_put :
    (m : Assoc (List ℕ)) (k j : Bytes) (r : Option (List ℕ)) (c d : ℕ)
    → remove_swap (waiters_of m k) c ≡ r
    → occurs (waiters_of (put_waiters m k r) j) d
      ≡ occurs (waiters_of m j) d - one_if (str_eq k j && (c == d))
unfolding put_waiters occurs
waiting_put m k j none c d h =
    ground (
      arith,
      remove_swap_absent (waiters_of m k) c h,
      str_eq_iff k j,
      same_count m k j d,
      ==_iff c d,
    )
waiting_put m k j (some []) c d h = ground (
  arith,
  occurs-remove_swap (waiters_of m k) [] c d h,
  str_eq_iff k j,
  same_count m k j d,
  get-remove m k j,
)
waiting_put m k j (some (w ∷ ws)) c d h = ground (
  arith,
  occurs-remove_swap (waiters_of m k) (w ∷ ws) c d h,
  str_eq_iff k j,
  same_count m k j d,
  get-put m k j (w ∷ ws),
)

-- Unregistering takes one registration of the channel away, and no other registration.
pub waiting-unregister :
    (n : Notifications) (k j : Bytes) (c d : ℕ)
    → waiting (unregister_completion_waiter n k c) j d
      ≡ waiting n j d - one_if (str_eq k j && (c == d))
unfolding unregister_completion_waiter
waiting-unregister n k j c d =
    let m = n.completion_waiters in waiting_put m k j (remove_swap (waiters_of m k) c) c d refl

-- Every waiter of the key is signalled and forgotten; no other channel or key is touched.
pub notify_completion_lem :
    (n : Notifications) (k j : Bytes) (c : ℕ)
    → ((notify_completion n k).signals c ≡ (if 0 == waiting n k c then n.signals c else some tt))
      × (waiting (notify_completion n k) j c ≡ (if str_eq k j then 0 else waiting n j c))
      × ((notify_completion n k).flush_waiters ≡ n.flush_waiters)
unfolding notify_completion occurs
notify_completion_lem n k j c = elim (Option-cases (Assoc.get n.completion_waiters k)) [
  | inl e ↦ ground (arith, e, str_eq_iff k j)
  | inr (ws, e) ↦ ground (
    arith,
    e,
    str_eq_iff k j,
    get-remove n.completion_waiters k j,
    send_all-signals n.signals ws c,
  )
]

-- Who waits for a flush is told exactly when nothing is pending, and then all are, once.
pub check_and_notify_lem {ℓ} :
    {V : Type ℓ} (n : Notifications) (p : CountedSyncMap V) (c : ℕ)
    → let n' = check_and_notify_flush_completion n p in
      (n'.flush_waiters ≡ (if CountedSyncMap.is_empty p then [] else n.flush_waiters))
      × (n'.signals c ≡ (
          if CountedSyncMap.is_empty p && not (0 == occurs n.flush_waiters c)
          then some tt
          else n.signals c))
      × (n'.completion_waiters ≡ n.completion_waiters)
unfolding check_and_notify_flush_completion occurs
check_and_notify_lem n p c = ground (arith, send_all-signals n.signals n.flush_waiters c)
