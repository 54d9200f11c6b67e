-- ===== src/Storage/Loops/Pace.antt =====
-- How often the background loops of pkg/storage run, and what they keep.
use content_storage_server.Prelude.{
  ℕ, zero, suc, ◌+◌, ◌*◌, ◌<◌, ◌≡◌, ap, if_induction, refl, ◌∙◌, true, Option, none, some, List, [],
  ◌∷◌, arith, length, if◌then◌else◌, ltb, Bool-cases, inl, inr,
}
use content_storage_server.Prelude.Int64.{Int64, add, mul, slt, offset}
use content_storage_server.Storage.Close.{BackupManager}
use content_storage_server.Storage.Backup.{FileInfo, BackupDirectory, BackupError, do_backup}
use content_storage_server.Storage.Loops.{
  Ticker, new_ticker, backoff, after_error, after_success, paced, BackupTick, backup_tick,
  backup_loop,
}

-- The pause that follows `errors` failures in a row.
abbrev pub pause : Int64 → Int64 → Int64 → Int64
pause max_backoff interval zero = interval
pause max_backoff interval (suc n) =
    if ltb max_backoff (suc n * interval) then max_backoff else suc n * interval

-- The ticker stands as the failures in a row want it, and more of them still fit 63 bits.
pub record IsPaced (max_backoff interval : Int64) (more : ℕ) (t : Ticker) : Type 0 where
  pub paused : t.period ≡ pause max_backoff interval t.consecutive_errors
  pub errors_fit : t.consecutive_errors + more < 9223372036854775808
  pub pauses_fit : (t.consecutive_errors + more) * interval < 9223372036854775808

no_wrap :
    (n more interval : ℕ)
    → (n + suc more) * interval < 9223372036854775808
    → mul (suc n) interval ≡ suc n * interval
no_wrap n more interval h =
    let small : suc n * interval < 18446744073709551616 = omega (arith, h) in omega (arith, small)

add_one : (n more : ℕ) → n + suc more < 9223372036854775808 → add n 1 ≡ suc n
add_one n more h = omega (arith, h)

slt_small : (x y : ℕ) → x < 9223372036854775808 → y < 9223372036854775808 → slt x y ≡ ltb x y
slt_small x y h k =
    let at_x : offset x ≡ x + 9223372036854775808 = omega (arith, h) in
    let at_y : offset y ≡ y + 9223372036854775808 = omega (arith, k) in ground (arith, at_x, at_y)

after_error-IsPaced :
    (max_backoff interval : Int64) (more : ℕ) (t : Ticker)
    → max_backoff < 9223372036854775808
    → IsPaced max_backoff interval (suc more) t
    → IsPaced max_backoff interval more (after_error max_backoff interval t)
unfolding after_error backoff
after_error-IsPaced max_backoff interval more t small h =
    let n = t.consecutive_errors in
    let one_more : add n 1 ≡ suc n = add_one n more h.errors_fit in
    let product : mul (suc n) interval ≡ suc n * interval = no_wrap n more interval h.pauses_fit in
    let below : suc n * interval < 9223372036854775808 = omega (arith, h.pauses_fit) in
    let test : slt max_backoff (suc n * interval) ≡ ltb max_backoff (suc n * interval) =
      slt_small max_backoff (suc n * interval) small below in
    let positive : slt 0 (suc n) ≡ true =
      slt_small 0 (suc n) (omega arith) (omega (arith, h.errors_fit)) ∙ ground arith in
    rw (one_more, after_error)
      (rw (positive, after_error)
        (record {
          paused = rw (product, backoff) (rw (test, backoff) refl);
          errors_fit = omega (arith, h.errors_fit);
          pauses_fit = omega (arith, h.pauses_fit);
        }))

after_success-IsPaced :
    (max_backoff interval : Int64) (more : ℕ) (t : Ticker)
    → IsPaced max_backoff interval (suc more) t
    → IsPaced max_backoff interval more (after_success interval t)
unfolding after_success new_ticker
after_success-IsPaced max_backoff interval more t h =
    elim (Bool-cases (slt 0 t.consecutive_errors)) [
      | inl e ↦
          rw (e, after_success)
            (record {
              paused = refl;
              errors_fit = omega (arith, h.errors_fit);
              pauses_fit = omega (arith, h.pauses_fit);
            })
      | inr e ↦
          rw (e, after_success)
            (record {
              paused = h.paused;
              errors_fit = omega (arith, h.errors_fit);
              pauses_fit = omega (arith, h.pauses_fit);
            })
    ]

pub paced-IsPaced {ℓ} :
    {E : Type ℓ} (max_backoff interval : Int64) (more : ℕ) (e : Option E) (t : Ticker)
    → max_backoff < 9223372036854775808
    → IsPaced max_backoff interval (suc more) t
    → IsPaced max_backoff interval more (paced max_backoff interval e t)
paced-IsPaced max_backoff interval more none t small h =
    after_success-IsPaced max_backoff interval more t h
paced-IsPaced max_backoff interval more (some e) t small h =
    after_error-IsPaced max_backoff interval more t small h

-- Fewer ticks fit as well.
pub fewer-IsPaced :
    (max_backoff interval : Int64) (more : ℕ) (t : Ticker)
    → IsPaced max_backoff interval (suc more) t
    → IsPaced max_backoff interval more t
fewer-IsPaced max_backoff interval more t h = record {
  paused = h.paused;
  errors_fit = omega (arith, h.errors_fit);
  pauses_fit = omega (arith, h.pauses_fit);
}

-- The failures in a row at the end, when `n` came before.
abbrev pub row {ℓ} : {E : Type ℓ} → ℕ → List (Option E) → ℕ
row n [] = n
row n (none ∷ es) = row 0 es
row n (some e ∷ es) = row (suc n) es

paced-errors {ℓ} :
    {E : Type ℓ} (max_backoff interval : Int64) (more : ℕ) (e : Option E) (t : Ticker)
    → IsPaced max_backoff interval (suc more) t
    → (es : List (Option E))
    → row (paced max_backoff interval e t).consecutive_errors es ≡ row t.consecutive_errors (e ∷ es)
unfolding after_success after_error new_ticker
paced-errors max_backoff interval more none t h es =
    ap (λ n. row n es) (reset t.consecutive_errors h.errors_fit)
  where
    reset :
        (n : ℕ)
        → n + suc more < 9223372036854775808
        → (after_success interval
            (record { period = t.period; consecutive_errors = n })).consecutive_errors
          ≡ 0
    reset zero small = refl
    reset (suc n) small =
        let positive : slt 0 (suc n) ≡ true =
          slt_small 0 (suc n) (omega arith) (omega (arith, small)) ∙ ground arith in
        rw (positive, after_success) refl
paced-errors max_backoff interval more (some e) t h es =
    ap (λ n. row n es)
      (if_induction (λ (u : Ticker). u.consecutive_errors ≡ add t.consecutive_errors 1)
          (slt 0 (add t.consecutive_errors 1)) refl refl
        ∙ add_one t.consecutive_errors more h.errors_fit)

module _ {F : Type 0} (d : BackupDirectory F) (sort : List FileInfo → List FileInfo) (max : ℕ) where
  -- How the backups of the ticks end.
  abbrev pub results : List BackupTick → F → BackupManager → List (Option BackupError)
  results [] f bm = []
  results (k ∷ ks) f bm =
      let (after, e) = do_backup d sort k.cancelled max k.now k.path f bm in
      e ∷ results ks after.0 after.1

  backup_loop-row :
      (interval : Int64) (ks : List BackupTick) (t : Ticker) (f : F) (bm : BackupManager)
      → IsPaced 1800000000000 interval (length ks) t
      → let u = (backup_loop d sort max interval ks (t, (f, bm))).0 in
        IsPaced 1800000000000 interval 0 u
        × (u.consecutive_errors ≡ row t.consecutive_errors (results ks f bm))
  unfolding backup_loop backup_tick
  backup_loop-row interval [] t f bm h = (h, refl)
  backup_loop-row interval (k ∷ ks) t f bm h =
      let (after, e) = do_backup d sort k.cancelled max k.now k.path f bm in
      let rest =
        backup_loop-row interval ks (paced 1800000000000 interval e t) after.0 after.1
          (paced-IsPaced 1800000000000 interval (length ks) e t (omega arith) h) in
      (
        rest.0,
        rest.1 ∙ paced-errors 1800000000000 interval (length ks) e t h (results ks after.0 after.1),
      )

  -- If the interval is positive, and the number of ticks, and it times the interval, are below 2
  -- ^ 63: after any ticks of the backup loop from its start, however the backups end, the time to
  -- the next one is the interval if the last one succeeded or there was none, and after n
  -- failures in a row n times the interval, or 30 minutes if that is less.
  pub backup_loop-pause :
      (interval : Int64) (ks : List BackupTick) (f : F) (bm : BackupManager)
      → 0 < interval
      → length ks < 9223372036854775808
      → length ks * interval < 9223372036854775808
      → (backup_loop d sort max interval ks (new_ticker interval, (f, bm))).0.period
        ≡ pause 1800000000000 interval (row 0 (results ks f bm))
  unfolding new_ticker
  backup_loop-pause interval ks f bm positive fit pauses =
      let (paced_at_end, errors) = backup_loop-row interval ks (new_ticker interval) f bm (record {
        paused = refl;
        errors_fit = omega (arith, fit);
        pauses_fit = omega (arith, pauses);
      }) in
      paced_at_end.paused ∙ ap (pause 1800000000000 interval) errors
