-- ===== src/Storage/Backup.antt =====
-- pkg/storage/backup.go: a backup, and the removal of old ones. The directory with its clock, BadgerDB's
-- backup stream and sort.Slice are parameters; the greatest number of backups is not negative.
pub mod Retention
use content_storage_server.Prelude.{
  ℕ, ◌-◌, Bool, true, false, Option, none, some, List, [], ◌∷◌, Bytes, length, take, ltb,
  if◌then◌else◌,
}
use content_storage_server.Storage.Error.{DbError}
use content_storage_server.Storage.Close.{BackupManager}

pub record FileInfo : Type 0 where
  pub path : Bytes
  pub mod_time : ℕ

-- `fill` is db.Backup into a file that was created.
pub record BackupDirectory (F : Type 0) : Type 0 where
  pub make_directory : F → Option F
  pub create : F → Bytes → Option F
  pub fill : F → Bytes → F × Option DbError
  pub remove : F → Bytes → F
  pub list : F → Option (List Bytes)
  pub mod_time : F → Bytes → Option ℕ

pub data BackupError : Type 0 where
  backup_cancelled backup_no_directory backup_no_file backup_not_listed : BackupError
  backup_failed : DbError → BackupError

module _ {F : Type 0} (d : BackupDirectory F) (sort : List FileInfo → List FileInfo) where
  -- The files that have a modification time.
  unfoldable pub backup_infos : F → List Bytes → List FileInfo
  backup_infos f [] = []
  backup_infos f (p ∷ ps) =
      let rest = backup_infos f ps in
      elim (d.mod_time f p) [ none ↦ rest | some t ↦ record { path = p; mod_time = t } ∷ rest ]

  -- A file that cannot be removed is left with a warning.
  unfoldable pub remove_files : List FileInfo → F → F
  remove_files [] f = f
  remove_files (i ∷ is) f = remove_files is (d.remove f i.path)

  unfoldable pub cleanup_old_backups : ℕ → F → F × Option BackupError
  unfolding backup_infos remove_files
  cleanup_old_backups max f = elim (d.list f) [
    | none ↦ (f, some backup_not_listed)
    | some backups ↦
        if ltb max (length backups)
        then (
          remove_files
              (take (length (backup_infos f backups) - max) (sort (backup_infos f backups))) f,
          none,
        )
        else (f, none)
  ]

  -- What follows the creation of the file.
  unfoldable pub fill_backup :
      ℕ → ℕ → Bytes → F → BackupManager → (F × BackupManager) × Option BackupError
  unfolding cleanup_old_backups
  fill_backup max now path f bm =
      let (f', e) = d.fill f path in
      elim e [
        | some x ↦ ((d.remove f' path, bm), some (backup_failed x))
        | none ↦ (((cleanup_old_backups max f').0, record bm { last_backup = some now }), none)
      ]

  -- `doBackup`; `cancelled` is whether the context is done at one of its two looks.
  unfoldable pub do_backup :
      Bool → ℕ → ℕ → Bytes → F → BackupManager → (F × BackupManager) × Option BackupError
  unfolding fill_backup
  do_backup cancelled max now path f bm =
      if cancelled then ((f, bm), some backup_cancelled) else (elim (d.make_directory f) [
        | none ↦ ((f, bm), some backup_no_directory)
        | some f1 ↦ (elim (d.create f1 path) [
          | none ↦ ((f1, bm), some backup_no_file)
          | some f2 ↦ fill_backup max now path f2 bm
        ])
      ])
