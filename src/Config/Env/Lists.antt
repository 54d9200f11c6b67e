-- ===== src/Config/Env/Lists.antt =====
-- The comma-separated variables of pkg/config/config.go.
use content_storage_server.Prelude.{
  ◌≡◌, refl, ap, ◌∙◌, Bool, true, false, some, List, [], ◌∷◌, ◌++◌, arith, Bytes, is_empty, ◌==◌,
  if◌then◌else◌, All,
}
use content_storage_server.Config.Env.{Environment, trim_space, split, trimmed, env_string_slice}

-- The entries with commas between.
unfoldable pub join : List Bytes → Bytes
join [] = []
join (x ∷ []) = x
join (x ∷ y ∷ ys) = x ++ 44 ∷ join (y ∷ ys)

abbrev pub lacks : Bytes → Bool
lacks [] = true
lacks (c ∷ s) = if c == 44 then false else lacks s

-- An entry that stands for itself: without a comma, not empty, and with no space at either end.
pub record IsEntry (s : Bytes) : Type 0 where
  pub no_comma : lacks s ≡ true
  pub not_empty : is_empty s ≡ false
  pub no_space : trim_space s ≡ s

split-plain : (s : Bytes) → lacks s ≡ true → split 44 s ≡ s ∷ []
unfolding split
split-plain [] h = refl
split-plain (c ∷ s) h = ground (arith, h, split-plain s)

split-entry : (s rest : Bytes) → lacks s ≡ true → split 44 (s ++ 44 ∷ rest) ≡ s ∷ split 44 rest
unfolding split
split-entry [] rest h = refl
split-entry (c ∷ s) rest h = ground (arith, h, split-entry s rest)

split-join :
    (x : Bytes) (xs : List Bytes)
    → lacks x ≡ true
    → All (λ s. lacks s ≡ true) xs
    → split 44 (join (x ∷ xs)) ≡ x ∷ xs
unfolding join
split-join x [] h k = split-plain x h
split-join x (y ∷ ys) h k =
    split-entry x (join (y ∷ ys)) h ∙ ap (λ r. x ∷ r) (split-join y ys k.0 k.1)

trimmed-entries : (xs : List Bytes) → All IsEntry xs → trimmed xs ≡ xs
unfolding trimmed
trimmed-entries [] h = refl
trimmed-entries (x ∷ xs) h = ground (arith, h.0.no_space, h.0.not_empty, trimmed-entries xs h.1)

join-not_empty :
    (x : Bytes) (xs : List Bytes) → is_empty x ≡ false → is_empty (join (x ∷ xs)) ≡ false
unfolding join
join-not_empty [] xs h = cc
join-not_empty (c ∷ s) [] h = refl
join-not_empty (c ∷ s) (y ∷ ys) h = refl

no_commas : (xs : List Bytes) → All IsEntry xs → All (λ s. lacks s ≡ true) xs
no_commas [] h = tt
no_commas (x ∷ xs) h = (h.0.no_comma, no_commas xs h.1)

-- If a variable is set to one or more entries with commas between, each of them not empty,
-- without a comma and without a space at its ends, then exactly these entries are read, in order.
pub env_string_slice-join :
    (lookup : Environment) (key : Bytes) (default : List Bytes) (x : Bytes) (xs : List Bytes)
    → All IsEntry (x ∷ xs)
    → lookup key ≡ some (join (x ∷ xs))
    → env_string_slice lookup key default ≡ x ∷ xs
unfolding env_string_slice
env_string_slice-join lookup key default x xs h e =
    let parts : trimmed (split 44 (join (x ∷ xs))) ≡ x ∷ xs =
      ap trimmed (split-join x xs h.0.no_comma (no_commas xs h.1)) ∙ trimmed-entries (x ∷ xs) h in
    rw (e, env_string_slice)
      (rw (join-not_empty x xs h.0.not_empty, env_string_slice) (rw (parts, env_string_slice) refl))
