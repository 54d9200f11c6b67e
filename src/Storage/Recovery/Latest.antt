-- ===== src/Storage/Recovery/Latest.antt =====
-- Which set of files pkg/storage/recovery.go recovers from: the latest one.
use content_storage_server.Prelude.{
  ◌≡◌, refl, ap, ◌∙◌, true, false, List, [], ◌∷◌, ◌++◌, arith, Bytes, length, length-append,
  append_assoc, nil_of_length, take, drop, if◌then◌else◌, if_induction, All, ◌⊎◌, inl, inr, ◌+◌,
  ◌-◌,
}
use content_storage_server.Storage.Recovery.{str_ltb, extract_timestamp, stamp, latest_from}

drop-append {ℓ} : {A : Type ℓ} (xs ys : List A) → drop (length xs) (xs ++ ys) ≡ ys
drop-append [] ys = refl
drop-append (x ∷ xs) ys = drop-append xs ys

take-append {ℓ} : {A : Type ℓ} (xs ys : List A) → take (length xs) (xs ++ ys) ≡ xs
take-append [] [] = refl
take-append [] (y ∷ ys) = refl
take-append (x ∷ xs) ys = ap (λ r. x ∷ r) (take-append xs ys)

-- Whatever the prefix and the suffix, the timestamp of a name is what stands between them.
pub extract_timestamp_lem :
    (prefix ts suffix : Bytes) → extract_timestamp (prefix ++ ts ++ suffix) prefix suffix ≡ ts
unfolding extract_timestamp
extract_timestamp_lem prefix ts suffix =
    let whole = prefix ++ ts ++ suffix in
    let size : length whole ≡ length prefix + length ts + length suffix =
      omega (arith, length-append (prefix ++ ts) suffix, length-append prefix ts) in
    let count : length whole - length suffix - length prefix ≡ length ts = omega (arith, size) in
    let middle : take (length whole - length suffix - length prefix) (drop (length prefix) whole)
        ≡ ts =
      ap (λ n. take n (drop (length prefix) whole)) count
      ∙ ap (λ xs. take (length ts) (drop (length prefix) xs)) (append_assoc prefix ts suffix)
      ∙ ap (take (length ts)) (drop-append prefix (ts ++ suffix))
      ∙ take-append ts suffix in
    ground (arith, middle, size, nil_of_length ts)

-- What is not below `a` is not below anything smaller.
str_ltb_trans : (a c x : Bytes) → str_ltb a c ≡ true → str_ltb a x ≡ false → str_ltb c x ≡ false
unfolding str_ltb
str_ltb_trans a c [] h k = refl
str_ltb_trans a [] (x ∷ xs) h k = absurd (ground (arith, h))
str_ltb_trans [] (c ∷ cs) (x ∷ xs) h k = absurd (ground (arith, k))
str_ltb_trans (a ∷ r) (c ∷ s) (x ∷ t) h k = ground (arith, str_ltb_trans r s t)

abbrev NotBelow : Bytes → Bytes → Type 0
NotBelow a x = str_ltb a x ≡ false

str_ltb_irrefl : (a : Bytes) → NotBelow a a
unfolding str_ltb
str_ltb_irrefl [] = refl
str_ltb_irrefl (x ∷ s) = ground (arith, str_ltb_irrefl s)

-- One step of the loop.
abbrev later : Bytes × Bytes → Bytes → Bytes × Bytes
later cur name = if str_ltb cur.0 (stamp name) then (stamp name, name) else cur

-- The timestamp so far does not decrease.
latest_from_above :
    (names : List Bytes) (cur : Bytes × Bytes) (x : Bytes)
    → NotBelow cur.0 x
    → NotBelow (latest_from cur names).0 x
unfolding latest_from
latest_from_above [] cur x h = h
latest_from_above (name ∷ names) cur x h =
    latest_from_above names (later cur name) x
      (ground (arith, h, str_ltb_trans cur.0 (stamp name) x))

-- The set that the loop over the directory selects has the latest timestamp: no file of pending
-- items in the directory has a later one. Its timestamp is the one of its file, or nothing was
-- selected.
pub latest_from_lem :
    (names : List Bytes)
    → let latest = latest_from ([], []) names in
      All (λ name. str_ltb latest.0 (stamp name) ≡ false) names
      × ((latest ≡ ([], [])) ⊎ (latest.0 ≡ stamp latest.1))
unfolding latest_from
latest_from_lem names = (above names ([], []), selected names ([], []) (inl refl))
  where
    above :
        (names : List Bytes) (cur : Bytes × Bytes)
        → All (λ name. NotBelow (latest_from cur names).0 (stamp name)) names
    above [] cur = tt
    above (name ∷ names) cur = (
      latest_from_above names (later cur name) (stamp name)
          (ground (arith, str_ltb_irrefl (stamp name))),
      above names (later cur name),
    )

    selected :
        (names : List Bytes) (cur : Bytes × Bytes)
        → ((cur ≡ ([], [])) ⊎ (cur.0 ≡ stamp cur.1))
        → ((latest_from cur names ≡ ([], []))
            ⊎ ((latest_from cur names).0 ≡ stamp (latest_from cur names).1))
    selected [] cur h = h
    selected (name ∷ names) cur h = selected names (later cur name) (
        if_induction (λ (c : Bytes × Bytes). (c ≡ ([], [])) ⊎ (c.0 ≡ stamp c.1))
          (str_ltb cur.0 (stamp name)) (inr refl) h)
