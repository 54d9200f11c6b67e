-- ===== src/Middleware/IpAllowlist.antt =====
-- pkg/middleware/ip_allowlist.go: which addresses are let in. Parsing and matching of addresses
-- (package net) and the LRU cache (hashicorp/golang-lru) are parameters.
pub mod Decide
use content_storage_server.Prelude.{
  ℕ, ◌≡◌, Bool, true, false, not, ◌&&◌, ◌||◌, Option, none, some, List, [], ◌∷◌, ◌++◌, Bytes, bytes,
  str_eq, is_empty, contains, ltb, is_nil, if◌then◌else◌,
}

-- What is used of package net: `N` is a parsed network, `A` a parsed address.
pub record Net (N A : Type 0) : Type 0 where
  pub trim_space : Bytes → Bytes
  pub parse_cidr : Bytes → Option N
  pub parse_ip : Bytes → Option A
  pub ip_string : A → Bytes
  pub mask_size : N → ℕ
  pub network_contains : N → A → Bool

-- What is used of the cache: a lookup that may refresh the entry, and an addition that may evict others.
pub record Lru (C : Type 0) : Type 0 where
  pub lookup : C → Bytes → Option Bool
  pub refresh : C → Bytes → C
  pub add : C → Bytes → Bool → C

-- A lookup answers with what was added last for the key, or with nothing.
pub record IsLru {C : Type 0} (l : Lru C) : Type 0 where
  pub lookup-refresh :
      (c : C) (k i : Bytes) (v : Bool) → l.lookup (l.refresh c k) i ≡ some v → l.lookup c i ≡ some v
  pub lookup-add_self : (c : C) (k : Bytes) (v w : Bool) → l.lookup (l.add c k v) k ≡ some w → w ≡ v
  pub lookup-add_other :
      (c : C) (k i : Bytes) (v w : Bool)
      → str_eq k i ≡ false
      → l.lookup (l.add c k v) i ≡ some w
      → l.lookup c i ≡ some w

pub record Allowlist (N : Type 0) : Type 0 where
  pub exact_ips : List Bytes
  pub allowed_networks : List N

pub data Answer : Type 0 where
  next : Answer
  access_denied : Answer
  invalid_ip_format : Answer

-- A key of a Go map that is used as a set.
unfoldable pub member : List Bytes → Bytes → Bool
member [] k = false
member (i ∷ is) k = str_eq i k || member is k

module _ {N A : Type 0} (net : Net N A) where
  -- One entry of the configured list; one that does not parse is skipped.
  unfoldable pub add_entry : Allowlist N → Bytes → Allowlist N
  add_entry a entry =
      let s = net.trim_space entry in
      if is_empty s
      then a
      else if contains s (bytes "/")
      then (elim (net.parse_cidr s) [
        | none ↦ a
        | some n ↦ record a { allowed_networks = a.allowed_networks ++ n ∷ [] }
      ])
      else (elim (net.parse_ip s) [
        | none ↦ a
        | some ip ↦ record a { exact_ips = net.ip_string ip ∷ a.exact_ips }
      ])

  unfoldable pub add_entries : Allowlist N → List Bytes → Allowlist N
  add_entries a [] = a
  add_entries a (e ∷ es) = add_entries (add_entry a e) es

  -- sort.Slice by the mask, the most specific network first.
  unfoldable pub insert_network : N → List N → List N
  insert_network n [] = n ∷ []
  insert_network n (m ∷ ms) =
      let rest = insert_network n ms in
      if ltb (net.mask_size n) (net.mask_size m) then m ∷ rest else n ∷ m ∷ ms

  unfoldable pub sort_networks : List N → List N
  sort_networks [] = []
  sort_networks (n ∷ ns) = insert_network n (sort_networks ns)

  unfoldable pub new_allowlist : List Bytes → Allowlist N
  new_allowlist entries =
      let a = add_entries (record { exact_ips = []; allowed_networks = [] }) entries in
      record a { allowed_networks = sort_networks a.allowed_networks }

  unfoldable pub any_contains : List N → A → Bool
  any_contains [] ip = false
  any_contains (n ∷ ns) ip = net.network_contains n ip || any_contains ns ip

  abbrev pub unrestricted : Allowlist N → Bool
  unrestricted a = is_nil a.allowed_networks && is_nil a.exact_ips

  unfoldable pub ip_allowed : Allowlist N → A → Bool
  ip_allowed a ip = member a.exact_ips (net.ip_string ip) || any_contains a.allowed_networks ip

  module _ {C : Type 0} (lru : Lru C) where
    -- The cache miss: the decision is made and cached.
    unfoldable pub decide_miss : Allowlist N → C → Bytes → Option A → C × Answer
    decide_miss a c client none = (lru.add c client false, invalid_ip_format)
    decide_miss a c client (some ip) =
        let allowed = ip_allowed a ip in
        (lru.add c client allowed, (if allowed then next else access_denied))

    unfoldable pub decide_cached : Allowlist N → C → Bytes → Option Bool → C × Answer
    decide_cached a c client (some allowed) =
        (lru.refresh c client, (if allowed then next else access_denied))
    decide_cached a c client none = decide_miss a c client (net.parse_ip client)

    unfoldable pub health_path : Bytes → Bool
    health_path path =
        str_eq path (bytes "/health")
        || str_eq path (bytes "/health/detailed")
        || str_eq path (bytes "/ping")

    -- The middleware on a request for `path` from `client`.
    unfoldable pub check : Allowlist N → C → Bytes → Bytes → C × Answer
    check a c path client =
        if unrestricted a
        then (c, next)
        else if health_path path
        then (c, next)
        else decide_cached a c client (lru.lookup c client)

    unfoldable pub is_ip_allowed : Allowlist N → C → Bytes → C × Bool
    is_ip_allowed a c client = if unrestricted a then (c, true) else (elim (lru.lookup c client) [
      | some allowed ↦ (lru.refresh c client, allowed)
      | none ↦ elim (net.parse_ip client) [
        | none ↦ (lru.add c client false, false)
        | some ip ↦ (lru.add c client (ip_allowed a ip), ip_allowed a ip)
      ]
    ])
