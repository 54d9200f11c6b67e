-- ===== src/Examples/Kept.antt =====
-- Backups in a directory that maps names to times, with an insertion sort.
use content_storage_server.Prelude.{
  Bool, keep, ◌∙◌, ℕ, ◌≤◌, ◌≡◌, refl, inl, inr, none, some, List, [], ◌∷◌, arith, bytes, ltb,
  if◌then◌else◌, All, Bool-cases,
}
use content_storage_server.Prelude.Assoc
use content_storage_server.Prelude.Assoc.{Assoc}
use content_storage_server.Storage.Backup.{FileInfo, BackupDirectory, cleanup_old_backups}
use content_storage_server.Storage.Backup.Retention.{
  number, IsOrdered, IsSort, IsBackupDirectory, Retained, cleanup_old_backups_lem,
}

abbrev insert : FileInfo → List FileInfo → List FileInfo
insert x [] = x ∷ []
insert x (y ∷ ys) =
    let rest = insert x ys in if ltb y.mod_time x.mod_time then y ∷ rest else x ∷ y ∷ ys

abbrev pub by_time : List FileInfo → List FileInfo
by_time [] = []
by_time (x ∷ xs) = insert x (by_time xs)

All-insert :
    (P : FileInfo → Type 0) (x : FileInfo) (xs : List FileInfo)
    → P x
    → All P xs
    → All P (insert x xs)
All-insert P x [] h k = (h, tt)
All-insert P x (y ∷ ys) h k = elim (Bool-cases (ltb y.mod_time x.mod_time)) [
  | inl e ↦ rw (e, insert) (k.0, All-insert P x ys h k.1)
  | inr e ↦ rw (e, insert) (h, k)
]

All-by_time : (P : FileInfo → Type 0) (xs : List FileInfo) → All P xs → All P (by_time xs)
All-by_time P [] h = tt
All-by_time P (x ∷ xs) h = All-insert P x (by_time xs) h.0 (All-by_time P xs h.1)

All-above :
    (x y : FileInfo) (ys : List FileInfo)
    → x.mod_time ≤ y.mod_time
    → All (λ (z : FileInfo). y.mod_time ≤ z.mod_time) ys
    → All (λ (z : FileInfo). x.mod_time ≤ z.mod_time) ys
All-above x y [] h k = tt
All-above x y (z ∷ zs) h k = (omega (arith, h, k.0), All-above x y zs h k.1)

insert-IsOrdered : (x : FileInfo) (xs : List FileInfo) → IsOrdered xs → IsOrdered (insert x xs)
insert-IsOrdered x [] h = (tt, tt)
insert-IsOrdered x (y ∷ ys) h = elim (Bool-cases (ltb y.mod_time x.mod_time)) [
  | inl e ↦
      rw (e, insert)
        (
          All-insert (λ (z : FileInfo). y.mod_time ≤ z.mod_time) x ys (ground (arith, e)) h.0,
          insert-IsOrdered x ys h.1,
        )
  | inr e ↦
      let below : x.mod_time ≤ y.mod_time = ground (arith, e) in
      rw (e, insert) ((below, All-above x y ys below h.0), h)
]

by_time-IsOrdered : (xs : List FileInfo) → IsOrdered (by_time xs)
by_time-IsOrdered [] = tt
by_time-IsOrdered (x ∷ xs) = insert-IsOrdered x (by_time xs) (by_time-IsOrdered xs)

number-insert :
    (p : FileInfo → Bool) (x : FileInfo) (xs : List FileInfo)
    → number p (insert x xs) ≡ number p (x ∷ xs)
unfolding keep
number-insert p x [] = refl
number-insert p x (y ∷ ys) = elim (Bool-cases (ltb y.mod_time x.mod_time)) [
  | inl e ↦ rw (e, insert) (ground (arith, number-insert p x ys))
  | inr e ↦ rw (e, insert) refl
]

number-by_time : (p : FileInfo → Bool) (xs : List FileInfo) → number p (by_time xs) ≡ number p xs
unfolding keep
number-by_time p [] = refl
number-by_time p (x ∷ xs) = number-insert p x (by_time xs) ∙ (ground (arith, number-by_time p xs))

by_time-IsSort : IsSort by_time
by_time-IsSort = record {
  ordered = by_time-IsOrdered;
  number-sort = number-by_time;
  all_sorted = All-by_time;
}

abbrev pub backups : BackupDirectory (Assoc ℕ)
backups = record {
  make_directory = λ f. some f;
  create = λ f p. some (Assoc.put f p 0);
  fill = λ f p. (Assoc.put f p 50, none);
  remove = λ f p. Assoc.remove f p;
  list = λ f. some (Assoc.keys f);
  mod_time = λ f p. Assoc.get f p;
}

backups-IsBackupDirectory : IsBackupDirectory backups
backups-IsBackupDirectory = record { mod_time-remove = λ f p q. Assoc.get-remove f p q }

-- Three backups, the oldest in the middle.
abbrev pub three : Assoc ℕ
three = (bytes "x", 40) ∷ (bytes "y", 20) ∷ (bytes "z", 30) ∷ []

cleanup_old_backups_example :
    Retained backups by_time 2 three
      (bytes "x" ∷ bytes "y" ∷ bytes "z" ∷ [])
      (cleanup_old_backups backups by_time 2 three).0
cleanup_old_backups_example =
    cleanup_old_backups_lem backups by_time 2 three (bytes "x" ∷ bytes "y" ∷ bytes "z" ∷ [])
      by_time-IsSort backups-IsBackupDirectory refl
