-- ===== src/Storage/Crud/Limits.antt =====
-- The access limit of pkg/storage/badger_CRUD.go: a content with limit L is read L times.
use content_storage_server.Prelude.{
  ℕ, zero, suc, ◌+◌, ◌-◌, ◌≤◌, ◌<◌, ◌≡◌, refl, ap, ◌∙◌, true, false, some, arith, Bytes,
  str_eq_refl, ltb, ltb→lt, if◌then◌else◌, Bool-cases, inl, inr,
}
use Prim.Native.Nat.{min}
use content_storage_server.Prelude.Int64.{Int64}
use content_storage_server.Models.Content.{Content, is_expired, is_access_exhausted}
use content_storage_server.Storage.Badger.{Badger, Codec}
use content_storage_server.Storage.Error.{Result, ok, err, content_expired, access_limit_reached}
use content_storage_server.Storage.Access.{AccessManager, get_access_count, increment_access}
use content_storage_server.Storage.Access.Laws.{increment_access_lem}
use content_storage_server.Storage.Crud.{
  BadgerStorage, retrieve, count_access, after_retrieve, read_content,
}

abbrev pub is_ok {ℓ} : {A : Type ℓ} → Result A → ℕ
is_ok (ok a) = 1
is_ok (err e) = 0

module _ {D B : Type 0} (b : Badger D B) (j : Codec) where
  -- `n` counted reads of a key, one after the other, and how many of them returned the content.
  unfoldable pub read_times : ℕ → BadgerStorage D → Bytes → ℕ → BadgerStorage D × ℕ
  read_times zero s k now = (s, 0)
  read_times (suc n) s k now =
      let (s', r) = read_content b j true s k now in
      let (s'', m) = read_times n s' k now in (s'', is_ok r + m)

  abbrev pub reads_so_far : BadgerStorage D → Bytes → ℕ
  reads_so_far s k = get_access_count s.access_manager k

  pub read_content_ok :
      (s : BadgerStorage D) (k : Bytes) (now : ℕ) (c : Content)
      → retrieve b j s.system.queue.db k ≡ ok c
      → read_content b j true s k now ≡ (
        record s { access_manager = (count_access s.access_manager k now c).0 },
        (count_access s.access_manager k now c).1,
      )
  unfolding read_content after_retrieve
  read_content_ok s k now c h = rw (h, read_content)

  count_access_below :
      (am : AccessManager) (k : Bytes) (now : ℕ) (c : Content) (l : Int64)
      → c.access_limit ≡ some l
      → l < 9223372036854775808
      → get_access_count am k < l
      → count_access am k now c
        ≡ ((increment_access am k).0, (if is_expired c now then err content_expired else ok c))
  unfolding count_access is_access_exhausted
  count_access_below am k now c l e small h = ground arith

  count_access_at :
      (am : AccessManager) (k : Bytes) (now : ℕ) (c : Content) (l : Int64)
      → c.access_limit ≡ some l
      → l < 9223372036854775808
      → get_access_count am k ≡ l
      → count_access am k now c ≡ (am, err access_limit_reached)
  unfolding count_access is_access_exhausted
  count_access_at am k now c l e small h = ground arith

  module _ (k : Bytes) (now : ℕ) (c : Content) (l : Int64) (limited : c.access_limit ≡ some l)
      (small : l < 9223372036854775808) (alive : is_expired c now ≡ false) where
    counted :
        (am : AccessManager)
        → get_access_count am k < 9223372036854775808
        → get_access_count (increment_access am k).0 k ≡ suc (get_access_count am k)
    counted am h = ground (arith, (increment_access_lem am k k).0, str_eq_refl k)

    succeeds :
        (s : BadgerStorage D)
        → retrieve b j s.system.queue.db k ≡ ok c
        → reads_so_far s k < l
        → read_content b j true s k now
          ≡ (record s { access_manager = (increment_access s.access_manager k).0 }, ok c)
    succeeds s h below =
        read_content_ok s k now c h
        ∙ ap (λ (r : AccessManager × Result Content). (record s { access_manager = r.0 }, r.1))
            (count_access_below s.access_manager k now c l limited small below
              ∙ ap
                  (λ t. (
                    (increment_access s.access_manager k).0,
                    if t then err content_expired else ok c,
                  ))
                  alive)

    fails :
        (s : BadgerStorage D)
        → retrieve b j s.system.queue.db k ≡ ok c
        → reads_so_far s k ≡ l
        → read_content b j true s k now ≡ (s, err access_limit_reached)
    fails s h at =
        read_content_ok s k now c h
        ∙ ap (λ (r : AccessManager × Result Content). (record s { access_manager = r.0 }, r.1))
            (count_access_at s.access_manager k now c l limited small at)

    -- Of n counted reads of a stored content with a limit below 2 ^ 63 that is not exceeded so
    -- far, and that has not expired, as many succeed as the limit leaves, and exactly these are
    -- counted.
    pub read_times_lem :
        (n : ℕ) (s : BadgerStorage D)
        → retrieve b j s.system.queue.db k ≡ ok c
        → reads_so_far s k ≤ l
        → ((read_times n s k now).1 ≡ min n (l - reads_so_far s k))
          × (reads_so_far (read_times n s k now).0 k
              ≡ reads_so_far s k + min n (l - reads_so_far s k))
    unfolding read_times
    read_times_lem zero s h below = (omega arith, omega arith)
    read_times_lem (suc n) s h below = elim (Bool-cases (ltb (reads_so_far s k) l)) [
      | inl less ↦
          let am = (increment_access s.access_manager k).0 in
          let s' = record s { access_manager = am } in
          let one : reads_so_far s' k ≡ suc (reads_so_far s k) =
            counted s.access_manager (omega (arith, ltb→lt _ _ less)) in
          let step : read_content b j true s k now ≡ (s', ok c) = succeeds s h (ltb→lt _ _ less) in
          let rest = read_times_lem n s' h (omega (arith, one, ltb→lt _ _ less)) in
          rw step (omega (arith, rest.0, rest.1, one, ltb→lt _ _ less))
      | inr full ↦
          let at : reads_so_far s k ≡ l = ground (arith, full) in
          let rest = read_times_lem n s h below in
          rw (fails s h at) (omega (arith, rest.0, rest.1, at))
    ]

  -- A counted read of a stored content that has expired, and whose limit is below 2 ^ 63 and not
  -- reached, fails with the expiry error and is counted.
  pub expired_read_counts :
      (s : BadgerStorage D) (k : Bytes) (now : ℕ) (c : Content) (l : Int64)
      → retrieve b j s.system.queue.db k ≡ ok c
      → c.access_limit ≡ some l
      → l < 9223372036854775808
      → is_expired c now ≡ true
      → reads_so_far s k < l
      → ((read_content b j true s k now).1 ≡ err content_expired)
        × (reads_so_far (read_content b j true s k now).0 k ≡ suc (reads_so_far s k))
  expired_read_counts s k now c l h limited small expired below =
      rw
        (
          read_content_ok s k now c h,
          count_access_below s.access_manager k now c l limited small below,
          expired,
        )
        (refl, ground (arith, (increment_access_lem s.access_manager k k).0, str_eq_refl k))
