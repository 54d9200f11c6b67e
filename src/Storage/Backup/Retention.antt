-- ===== src/Storage/Backup/Retention.antt =====
-- Which backups pkg/storage/backup.go keeps, and what a backup records.
use content_storage_server.Prelude.{
  ℕ, ◌-◌, ◌≤◌, ◌≡◌, refl, sym, inl, inr, Bool, true, false, Option, none, some, List, [], ◌∷◌, ◌++◌,
  arith, Bytes, str_eq, str_eq_iff, length, take, drop, keep, ap, ◌∙◌, take-append-drop,
  length-take, length-drop, ltb, zero, suc, ◌⊎◌, if◌then◌else◌, All, subst, Bool-cases,
  Option-cases,
}
use content_storage_server.Storage.Close.{BackupManager}
use content_storage_server.Storage.Backup.{
  FileInfo, BackupDirectory, BackupError, backup_infos, remove_files, cleanup_old_backups,
  fill_backup, do_backup,
}

-- The oldest first.
abbrev pub IsOrdered : List FileInfo → Type 0
IsOrdered [] = Unit {0}
IsOrdered (x ∷ xs) = All (λ (y : FileInfo). x.mod_time ≤ y.mod_time) xs × IsOrdered xs

-- How many entries pass a test.
abbrev pub number : (FileInfo → Bool) → List FileInfo → ℕ
number p xs = length (keep p xs)

-- sort.Slice orders its slice and keeps its elements, each as often as it was there.
pub record IsSort (sort : List FileInfo → List FileInfo) : Type 1 where
  pub ordered : (xs : List FileInfo) → IsOrdered (sort xs)
  pub number-sort : (p : FileInfo → Bool) (xs : List FileInfo) → number p (sort xs) ≡ number p xs
  pub all_sorted : (P : FileInfo → Type 0) (xs : List FileInfo) → All P xs → All P (sort xs)

-- A removed file is gone, and the others stay.
pub record IsBackupDirectory {F : Type 0} (d : BackupDirectory F) : Type 0 where
  pub mod_time-remove :
      (f : F) (p q : Bytes)
      → d.mod_time (d.remove f p) q ≡ (if str_eq p q then none else d.mod_time f q)

number_all : (xs : List FileInfo) → number (λ x. true) xs ≡ length xs
unfolding keep
number_all [] = refl
number_all (x ∷ xs) = omega (arith, number_all xs)

All-drop : (P : FileInfo → Type 0) (n : ℕ) (xs : List FileInfo) → All P xs → All P (drop n xs)
All-drop P zero xs h = h
All-drop P (suc n) [] h = h
All-drop P (suc n) (x ∷ xs) h = All-drop P n xs h.1

-- What stands first is not newer than what stands behind it.
ordered-split :
    (n : ℕ) (xs : List FileInfo)
    → IsOrdered xs
    → All
        (λ (r : FileInfo). All (λ (k : FileInfo). r.mod_time ≤ k.mod_time) (drop n xs))
        (take n xs)
ordered-split zero xs h = tt
ordered-split (suc n) [] h = tt
ordered-split (suc n) (x ∷ xs) h =
    (All-drop (λ (y : FileInfo). x.mod_time ≤ y.mod_time) n xs h.0, ordered-split n xs h.1)

module _ {F : Type 0} (d : BackupDirectory F) (sort : List FileInfo → List FileInfo) where
  length-backup_infos : (f : F) (ps : List Bytes) → length (backup_infos d sort f ps) ≤ length ps
  unfolding backup_infos
  length-backup_infos f [] = omega arith
  length-backup_infos f (p ∷ ps) = elim (Option-cases (d.mod_time f p)) [
    | inl x ↦ rw (x, backup_infos) (omega (arith, length-backup_infos f ps))
    | inr (t, x) ↦ rw (x, backup_infos) (omega (arith, length-backup_infos f ps))
  ]

  abbrev pub IsFile : F → FileInfo → Type 0
  IsFile f i = d.mod_time f i.path ≡ some i.mod_time

  backup_infos-IsFile : (f : F) (ps : List Bytes) → All (IsFile f) (backup_infos d sort f ps)
  unfolding backup_infos
  backup_infos-IsFile f [] = tt
  backup_infos-IsFile f (p ∷ ps) = elim (Option-cases (d.mod_time f p)) [
    | inl x ↦ rw (x, backup_infos) (backup_infos-IsFile f ps)
    | inr (t, x) ↦ rw (x, backup_infos) (x, backup_infos-IsFile f ps)
  ]

  gone_stays :
      (is : List FileInfo) (f : F) (q : Bytes)
      → IsBackupDirectory d
      → d.mod_time f q ≡ none
      → d.mod_time (remove_files d sort is f) q ≡ none
  unfolding remove_files
  gone_stays [] f q h e = e
  gone_stays (i ∷ is) f q h e =
      gone_stays is (d.remove f i.path) q h (ground (arith, h.mod_time-remove f i.path q, e))

  removed_gone :
      (is : List FileInfo) (f : F)
      → IsBackupDirectory d
      → All (λ (i : FileInfo). d.mod_time (remove_files d sort is f) i.path ≡ none) is
  unfolding remove_files
  removed_gone [] f h = tt
  removed_gone (i ∷ is) f h = (
    gone_stays is (d.remove f i.path) i.path h
        (ground (arith, h.mod_time-remove f i.path i.path, str_eq_iff i.path i.path)),
    removed_gone is (d.remove f i.path) h,
  )

  -- The files of the listing, each as often as it is there, fall into those that were removed, and at
  -- most `max` that are kept, as many as that if any was removed; none removed is newer than one kept.
  pub record Retained (max : ℕ) (f : F) (ps : List Bytes) (f' : F) : Type 0 where
    pub removed : List FileInfo
    pub kept : List FileInfo
    pub by_removal : f' ≡ remove_files d sort removed f
    pub gone : All (λ (i : FileInfo). d.mod_time f' i.path ≡ none) removed
    pub are_files : All (IsFile f) (removed ++ kept)
    pub partition :
        (p : FileInfo → Bool) → number p (removed ++ kept) ≡ number p (backup_infos d sort f ps)
    pub at_most : length kept ≤ max
    pub no_more : (length removed ≡ 0) ⊎ (length kept ≡ max)
    pub oldest_first :
        All (λ (r : FileInfo). All (λ (k : FileInfo). r.mod_time ≤ k.mod_time) kept) removed

  -- If the backups can be listed, sorting orders them and keeps each as often as it is there, and
  -- a removal takes effect: after the cleanup the listed backups that have a time, each as often
  -- as it is listed, fall into those removed, which are gone, and those kept, which are at most
  -- `max`, and just as many if any was removed; nothing else is removed, and no removed one is
  -- newer than a kept one.
  pub cleanup_old_backups_lem :
      (max : ℕ) (f : F) (ps : List Bytes)
      → IsSort sort
      → IsBackupDirectory d
      → d.list f ≡ some ps
      → Retained max f ps (cleanup_old_backups d sort max f).0
  unfolding cleanup_old_backups
  cleanup_old_backups_lem max f ps by_time dir listed = elim (Bool-cases (ltb max (length ps))) [
    | inl many ↦ rw (listed, cleanup_old_backups) (rw (many, cleanup_old_backups) over)
    | inr few ↦ rw (listed, cleanup_old_backups) (rw (few, cleanup_old_backups) (nothing few))
  ]
    where
      infos : List FileInfo
      infos = backup_infos d sort f ps

      sizes : length (sort infos) ≡ length infos
      sizes =
          sym (number_all (sort infos)) ∙ by_time.number-sort (λ x. true) infos ∙ number_all infos

      over : Retained max f ps (remove_files d sort (take (length infos - max) (sort infos)) f)
      over =
          let n = length infos - max in
          record {
            removed = take n (sort infos);
            kept = drop n (sort infos);
            by_removal = refl;
            gone = removed_gone (take n (sort infos)) f dir;
            are_files =
                subst (All (IsFile f)) (sym (take-append-drop n (sort infos)))
                  (by_time.all_sorted (IsFile f) infos (backup_infos-IsFile f ps));
            partition =
                λ p. ap (number p) (take-append-drop n (sort infos)) ∙ by_time.number-sort p infos;
            at_most = omega (arith, length-drop n (sort infos), sizes);
            no_more = elim (Bool-cases (ltb max (length infos))) [
              | inl more ↦ inr (ground (arith, more, length-drop n (sort infos), sizes))
              | inr less ↦ inl (ground (arith, less, length-take n (sort infos), sizes))
            ];
            oldest_first = ordered-split n (sort infos) (by_time.ordered infos);
          }

      nothing : ltb max (length ps) ≡ false → Retained max f ps f
      nothing few = record {
        removed = [];
        kept = infos;
        by_removal = refl;
        gone = tt;
        are_files = backup_infos-IsFile f ps;
        partition = λ p. refl;
        at_most = ground (arith, few, length-backup_infos f ps);
        no_more = inl refl;
        oldest_first = tt;
      }

  -- A result that records the backup at `now` if it is not an error.
  abbrev Records : ℕ → BackupManager → (F × BackupManager) × Option BackupError → Type 0
  Records now bm out =
      out.0.1 ≡ (elim out.1 [ some e ↦ bm | none ↦ record bm { last_backup = some now } ])

  fill_backup-Records :
      (max now : ℕ) (path : Bytes) (f : F) (bm : BackupManager)
      → Records now bm (fill_backup d sort max now path f bm)
  unfolding fill_backup
  fill_backup-Records max now path f bm = elim (Option-cases (d.fill f path).1) [
    | inl e ↦ rw (e, fill_backup) refl
    | inr (x, e) ↦ rw (e, fill_backup) refl
  ]

  -- A backup that ends in an error, whichever, leaves the backup manager as it was; any other
  -- records its time as the last backup and changes nothing else in the manager.
  pub do_backup_lem :
      (cancelled : Bool) (max now : ℕ) (path : Bytes) (f : F) (bm : BackupManager)
      → let out = do_backup d sort cancelled max now path f bm in
        out.0.1 ≡ (elim out.1 [ some e ↦ bm | none ↦ record bm { last_backup = some now } ])
  unfolding do_backup
  do_backup_lem true max now path f bm = refl
  do_backup_lem false max now path f bm = elim (Option-cases (d.make_directory f)) [
    | inl e ↦ rw (e, do_backup) refl
    | inr (f1, e) ↦
        rw (e, do_backup)
          (elim (Option-cases (d.create f1 path)) [
            | inl c ↦ rw (c, do_backup) refl
            | inr (f2, c) ↦ rw (c, do_backup) (fill_backup-Records max now path f2 bm)
          ])
  ]
