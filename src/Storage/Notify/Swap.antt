-- ===== src/Storage/Notify/Swap.antt =====
-- The swap-with-last removal of pkg/storage/UnifiedNotificationSystem.go, and what it does to the
-- number of times that each channel is registered.
use content_storage_server.Prelude.{
  ℕ, zero, suc, ◌+◌, ◌-◌, ◌<◌, ◌≡◌, refl, ap, Bool, true, false, Option, none, some, List, [], ◌∷◌,
  arith, ◌==◌, length, take, set, get_elem?, if◌then◌else◌, Option-cases, inl, inr,
}

-- The loop's search for the first position of the channel.
unfoldable pub index_of : List ℕ → ℕ → Option ℕ
index_of [] c = none
index_of (w ∷ ws) c =
    let rest = index_of ws c in
    if w == c then some 0 else (elim rest [ none ↦ none | some i ↦ some (suc i) ])

abbrev pub get_or : List ℕ → ℕ → ℕ → ℕ
get_or ws i d = elim (get_elem? ws i) [ none ↦ d | some w ↦ w ]

-- waiters[i] = waiters[lastIdx] unless i is the last index; then waiters[:lastIdx].
unfoldable pub swap_out : List ℕ → ℕ → List ℕ
swap_out ws i =
    let last = length ws - 1 in take last (if i == last then ws else set ws i (get_or ws last 0))

-- `none` if the channel is not there, in which case the slice is not stored.
unfoldable pub remove_swap : List ℕ → ℕ → Option (List ℕ)
unfolding index_of swap_out
remove_swap ws c = elim (index_of ws c) [ none ↦ none | some i ↦ some (swap_out ws i) ]

-- How often a channel is registered.
abbrev pub one_if : Bool → ℕ
one_if true = 1
one_if false = 0

unfoldable pub occurs : List ℕ → ℕ → ℕ
occurs [] d = 0
occurs (w ∷ ws) d = one_if (w == d) + occurs ws d

index_of-some :
    (ws : List ℕ) (c i : ℕ) → index_of ws c ≡ some i → (i < length ws) × (get_or ws i 0 ≡ c)
unfolding index_of
index_of-some [] c i h = cc
index_of-some (w ∷ ws) c zero h = ground arith
index_of-some (w ∷ ws) c (suc i) h = ground (arith, index_of-some ws c i)

occurs_pos : (ws : List ℕ) (c : ℕ) → index_of ws c ≡ none → occurs ws c ≡ 0
unfolding index_of occurs
occurs_pos [] c h = refl
occurs_pos (w ∷ ws) c h = ground (arith, occurs_pos ws c)

occurs-set :
    (ws : List ℕ) (i v d : ℕ)
    → i < length ws
    → occurs (set ws i v) d + one_if (get_or ws i 0 == d) ≡ occurs ws d + one_if (v == d)
unfolding occurs
occurs-set [] i v d h = absurd (omega arith)
occurs-set (w ∷ ws) zero v d h = omega arith
occurs-set (w ∷ ws) (suc i) v d h = omega (arith, occurs-set ws i v d (omega arith))

-- Dropping the last element.
occurs-take :
    (ws : List ℕ) (n d : ℕ)
    → length ws ≡ suc n
    → occurs (take n ws) d + one_if (get_or ws n 0 == d) ≡ occurs ws d
unfolding occurs
occurs-take [] n d h = absurd (omega arith)
occurs-take (w ∷ []) zero d h = omega arith
occurs-take (w ∷ x ∷ ws) zero d h = absurd (omega arith)
occurs-take (w ∷ ws) (suc n) d h = omega (arith, occurs-take ws n d (omega arith))

length-set : (ws : List ℕ) (i v : ℕ) → length (set ws i v) ≡ length ws
length-set [] i v = refl
length-set (w ∷ ws) zero v = refl
length-set (w ∷ ws) (suc i) v = ap suc (length-set ws i v)

get_or-set_ne :
    (ws : List ℕ) (i j v : ℕ) → (i == j) ≡ false → get_or (set ws i v) j 0 ≡ get_or ws j 0
get_or-set_ne [] i j v h = refl
get_or-set_ne (w ∷ ws) zero zero v h = cc
get_or-set_ne (w ∷ ws) zero (suc j) v h = refl
get_or-set_ne (w ∷ ws) (suc i) zero v h = refl
get_or-set_ne (w ∷ ws) (suc i) (suc j) v h = get_or-set_ne ws i j v (ground arith)

-- Swapping out a position loses the channel that stood there, once, and no other.
occurs-swap_out :
    (ws : List ℕ) (i d : ℕ)
    → i < length ws
    → occurs (swap_out ws i) d + one_if (get_or ws i 0 == d) ≡ occurs ws d
unfolding swap_out
occurs-swap_out ws i d h =
    let last = length ws - 1 in
    let v = get_or ws last 0 in
    ground (
      arith,
      occurs-take ws last d,
      occurs-take (set ws i v) last d,
      occurs-set ws i v d,
      length-set ws i v,
      get_or-set_ne ws i last v,
    )

pub occurs-remove_swap :
    (ws out : List ℕ) (c d : ℕ)
    → remove_swap ws c ≡ some out
    → occurs out d + one_if (c == d) ≡ occurs ws d
unfolding remove_swap
occurs-remove_swap ws out c d h = elim (Option-cases (index_of ws c)) [
  | inl e ↦ cc e
  | inr (i, e) ↦ ground (arith, e, index_of-some ws c i e, occurs-swap_out ws i d)
]

pub remove_swap_absent : (ws : List ℕ) (c : ℕ) → remove_swap ws c ≡ none → occurs ws c ≡ 0
unfolding remove_swap
remove_swap_absent ws c h = ground (arith, occurs_pos ws c)
