-- ===== src/Prelude/Assoc.antt =====
-- Go's maps with string keys, as association lists. A map that the program builds holds each key
-- once; an iteration visits the entries in the list's order, which stands for any order, since the
-- lemmas hold for every list.
use content_storage_server.Prelude.Tests.{if◌then◌else◌}
use content_storage_server.Prelude.Lists.{length}
use content_storage_server.Prelude.Text.{Bytes, str_eq, str_eq_iff, str_eq_refl}
use Prim.Native.Nat.{◌+◌}
use mathlib.Core.Path.{◌≡◌, refl, ap}
use mathlib.Core.Bool.{Bool, true, false}
use mathlib.Core.Option.{Option, none, some}
use mathlib.Core.List.{List, [], ◌∷◌}
use native.Mathlib.Omega.{arith}

abbrev pub Assoc {ℓ} : Type ℓ → Type ℓ
Assoc V = List (Bytes × V)

module _ {ℓ} {V : Type ℓ} where
  -- m[k]
  unfoldable pub get : Assoc V → Bytes → Option V
  get [] k = none
  get ((j, v) ∷ m) k = if str_eq j k then some v else get m k

  -- delete(m, k)
  unfoldable pub remove : Assoc V → Bytes → Assoc V
  remove [] k = []
  remove ((j, v) ∷ m) k = elim (str_eq j k) [ true ↦ remove m k | false ↦ (j, v) ∷ remove m k ]

  -- m[k] = v: an entry that is there is overwritten in its place.
  unfoldable pub put : Assoc V → Bytes → V → Assoc V
  put [] k v = (k, v) ∷ []
  put ((j, w) ∷ m) k v = elim (str_eq j k) [ true ↦ (j, v) ∷ m | false ↦ (j, w) ∷ put m k v ]

  -- _, ok := m[k]
  unfoldable pub has : Assoc V → Bytes → Bool
  unfolding get
  has m k = elim (get m k) [ none ↦ false | some v ↦ true ]

  abbrev pub keys : Assoc V → List Bytes
  keys [] = []
  keys ((j, v) ∷ m) = j ∷ keys m

  abbrev pub values : Assoc V → List V
  values [] = []
  values ((j, v) ∷ m) = v ∷ values m

  -- Each key stands once.
  abbrev pub IsMap : Assoc V → Type 0
  IsMap [] = Unit {0}
  IsMap ((j, v) ∷ m) = (has m j ≡ false) × IsMap m

  pub get-remove :
      (m : Assoc V) (k j : Bytes) → get (remove m k) j ≡ (if str_eq k j then none else get m j)
  unfolding get remove
  get-remove [] k j = ground arith
  get-remove ((i, v) ∷ m) k j =
      ground (arith, get-remove m k j, str_eq_iff i k, str_eq_iff i j, str_eq_iff k j)

  pub get-put :
      (m : Assoc V) (k j : Bytes) (v : V)
      → get (put m k v) j ≡ (if str_eq k j then some v else get m j)
  unfolding get put
  get-put [] k j v = ground arith
  get-put ((i, w) ∷ m) k j v =
      ground (arith, get-put m k j v, str_eq_iff i k, str_eq_iff i j, str_eq_iff k j)

  pub has-remove :
      (m : Assoc V) (k j : Bytes) → has (remove m k) j ≡ (if str_eq k j then false else has m j)
  unfolding has
  has-remove m k j = ground (arith, get-remove m k j)

  pub has-put :
      (m : Assoc V) (k j : Bytes) (v : V)
      → has (put m k v) j ≡ (if str_eq k j then true else has m j)
  unfolding has
  has-put m k j v = ground (arith, get-put m k j v)

  pub get_absent : (m : Assoc V) (k : Bytes) → has m k ≡ false → get m k ≡ none
  unfolding has
  get_absent m k h = ground arith

  pub remove-IsMap : (m : Assoc V) (k : Bytes) → IsMap m → IsMap (remove m k)
  unfolding remove
  remove-IsMap [] k h = tt
  remove-IsMap ((j, v) ∷ m) k h = ground (arith, remove-IsMap m k h.1, has-remove m k j)

  pub put-IsMap : (m : Assoc V) (k : Bytes) (v : V) → IsMap m → IsMap (put m k v)
  unfolding put has get
  put-IsMap [] k v h = ground arith
  put-IsMap ((j, w) ∷ m) k v h =
      ground (arith, put-IsMap m k v h.1, has-put m k j v, str_eq_iff j k, str_eq_iff k j)

  pub remove_absent : (m : Assoc V) (k : Bytes) → has m k ≡ false → remove m k ≡ m
  unfolding remove has get
  remove_absent [] k h = refl
  remove_absent ((j, v) ∷ m) k h = ground (arith, remove_absent m k)

  pub length-remove :
      (m : Assoc V) (k : Bytes)
      → IsMap m
      → length (remove m k) + (if has m k then 1 else 0) ≡ length m
  unfolding remove has get
  length-remove [] k h = omega arith
  length-remove ((j, v) ∷ m) k h =
      ground (arith, length-remove m k h.1, str_eq_iff j k, ap length (remove_absent m j h.0))

  pub length-put :
      (m : Assoc V) (k : Bytes) (v : V) → length (put m k v) ≡ length m + (if has m k then 0 else 1)
  unfolding put has get
  length-put [] k v = omega arith
  length-put ((j, w) ∷ m) k v = ground (arith, length-put m k v)

  pub nil_of_get : (m : Assoc V) → ((k : Bytes) → get m k ≡ none) → m ≡ []
  unfolding get
  nil_of_get [] h = refl
  nil_of_get ((j, v) ∷ m) h = ground (arith, h j, str_eq_refl j)
