-- ===== src/Middleware/IpAllowlist/Decide.antt =====
-- What the middleware of pkg/middleware/ip_allowlist.go decides: the cache never changes the answer,
-- and the order in which the networks are kept does not either.
use content_storage_server.Prelude.{
  ◌≡◌, refl, sym, ap, subst, ◌∙◌, Bool, true, false, ◌||◌, Option, none, some, List, [], ◌∷◌, arith,
  Bytes, str_eq, str_eq_iff, if◌then◌else◌, Bool-cases, Option-cases, inl, inr, ◌⊎◌, ◌↔◌, ◌&&◌,
  is_nil, bytes,
}
use content_storage_server.Middleware.IpAllowlist.{
  Net, Lru, IsLru, Allowlist, Answer, next, access_denied, invalid_ip_format, any_contains, member,
  insert_network, sort_networks, ip_allowed, unrestricted, decide_miss, decide_cached, health_path,
  check,
}

abbrev pub is_next : Answer → Bool
is_next next = true
is_next access_denied = false
is_next invalid_ip_format = false

is_next-if : (v : Bool) → is_next (if v then next else access_denied) ≡ v
is_next-if true = refl
is_next-if false = refl

-- Some element has the property.
abbrev pub Some : {A : Type 0} → (A → Type 0) → List A → Type 0
Some P [] = ⊥
Some P (x ∷ xs) = P x ⊎ Some P xs

either_iff :
    {P Q : Type 0} (x y : Bool) → (x ≡ true) ↔ P → (y ≡ true) ↔ Q → ((x || y) ≡ true) ↔ (P ⊎ Q)
either_iff true y f g = (λ h. inl (f.0 refl), λ h. refl)
either_iff false y f g =
    (λ h. inr (g.0 h), λ h. elim h [ inl p ↦ absurd (cc (f.1 p)) | inr q ↦ g.1 q ])

member_iff : (is : List Bytes) (k : Bytes) → (member is k ≡ true) ↔ Some (λ (i : Bytes). i ≡ k) is
unfolding member
member_iff [] k = (λ h. absurd (cc h), λ h. absurd h)
member_iff (i ∷ is) k = either_iff _ _ (str_eq_iff i k) (member_iff is k)

module _ {N A : Type 0} (net : Net N A) where
  -- The decision without a cache.
  abbrev pub permitted : Allowlist N → Bytes → Bool
  permitted a client = elim (net.parse_ip client) [ none ↦ false | some ip ↦ ip_allowed net a ip ]

  any_contains-insert_network :
      (n : N) (ns : List N) (ip : A)
      → any_contains net (insert_network net n ns) ip
        ≡ (net.network_contains n ip || any_contains net ns ip)
  unfolding any_contains insert_network
  any_contains-insert_network n [] ip = refl
  any_contains-insert_network n (m ∷ ms) ip = ground (arith, any_contains-insert_network n ms ip)

  -- Sorting the networks changes no decision.
  pub any_contains-sort_networks :
      (ns : List N) (ip : A) → any_contains net (sort_networks net ns) ip ≡ any_contains net ns ip
  unfolding any_contains sort_networks
  any_contains-sort_networks [] ip = refl
  any_contains-sort_networks (n ∷ ns) ip = ground (
    arith,
    any_contains-insert_network n (sort_networks net ns) ip,
    any_contains-sort_networks ns ip,
  )

  module _ {C : Type 0} (lru : Lru C) where
    -- The answer in the cache, or the one that is decided now if there is none.
    abbrev pub answer_or : Allowlist N → Bytes → Option Bool → Bool
    answer_or a i none = permitted a i
    answer_or a i (some v) = v

    -- Every answer in the cache is the one that would be decided now.
    abbrev pub IsConsistent : Allowlist N → C → Type 0
    IsConsistent a c = (i : Bytes) → answer_or a i (lru.lookup c i) ≡ permitted a i

    at-IsConsistent :
        (a : Allowlist N) (c : C) (i : Bytes) (v : Bool)
        → IsConsistent a c
        → lru.lookup c i ≡ some v
        → v ≡ permitted a i
    at-IsConsistent a c i v h e = sym (ap (answer_or a i) e) ∙ h i

    by-IsConsistent :
        (a : Allowlist N) (c : C)
        → ((i : Bytes) (v : Bool) → lru.lookup c i ≡ some v → v ≡ permitted a i)
        → IsConsistent a c
    by-IsConsistent a c f i = elim (Option-cases (lru.lookup c i)) [
      | inl e ↦ ap (answer_or a i) e
      | inr (v, e) ↦ ap (answer_or a i) e ∙ f i v e
    ]

    add-IsConsistent :
        IsLru lru
        → (a : Allowlist N) (c : C) (k : Bytes) (v : Bool) → IsConsistent a c
        → v ≡ permitted a k
        → IsConsistent a (lru.add c k v)
    add-IsConsistent L a c k v h e = by-IsConsistent a (lru.add c k v) (λ i w found.
        elim (Bool-cases (str_eq k i)) [
          | inl same ↦
              (let k_i : k ≡ i = (str_eq_iff k i).0 same in
                let here = subst (λ x. lru.lookup (lru.add c k v) x ≡ some w) (sym k_i) found in
                L.lookup-add_self c k v w here ∙ e ∙ ap (permitted a) k_i)
          | inr other ↦ at-IsConsistent a c i w h (L.lookup-add_other c k i v w other found)
        ])

    decide_miss_lem :
        (a : Allowlist N) (c : C) (client : Bytes)
        → is_next (decide_miss net lru a c client (net.parse_ip client)).1 ≡ permitted a client
    unfolding decide_miss
    decide_miss_lem a c client = elim (Option-cases (net.parse_ip client)) [
      | inl e ↦ rw (e, permitted) refl
      | inr (ip, e) ↦ rw (e, permitted) (is_next-if (ip_allowed net a ip))
    ]

    decide_miss-IsConsistent :
        IsLru lru
        → (a : Allowlist N) (c : C) (client : Bytes) → IsConsistent a c
        → IsConsistent a (decide_miss net lru a c client (net.parse_ip client)).0
    unfolding decide_miss
    decide_miss-IsConsistent L a c client h = elim (Option-cases (net.parse_ip client)) [
      | inl e ↦ rw (e, decide_miss) (add-IsConsistent L a c client false h (rw (e, permitted) refl))
      | inr (ip, e) ↦
          rw (e, decide_miss)
            (add-IsConsistent L a c client (ip_allowed net a ip) h (rw (e, permitted) refl))
    ]

    decide_cached_lem :
        IsLru lru
        → (a : Allowlist N) (c : C) (client : Bytes) → IsConsistent a c
        → (is_next (decide_cached net lru a c client (lru.lookup c client)).1 ≡ permitted a client)
          × IsConsistent a (decide_cached net lru a c client (lru.lookup c client)).0
    unfolding decide_cached
    decide_cached_lem L a c client h = elim (Option-cases (lru.lookup c client)) [
      | inl e ↦
          rw (e, decide_cached)
            (decide_miss_lem a c client, decide_miss-IsConsistent L a c client h)
      | inr (v, e) ↦
          rw (e, decide_cached)
            (
              is_next-if v ∙ at-IsConsistent a c client v h e,
              by-IsConsistent a (lru.refresh c client)
                  (λ i w found. at-IsConsistent a c i w h (L.lookup-refresh c client i w found)),
            )
    ]

    -- With an LRU cache whose entries agree with the list, a request passes exactly if the list
    -- is empty, the path is one of the health checks or the address is on the list; the cache
    -- still agrees afterwards, so that no answer ever depends on what is cached.
    pub check_lem :
        IsLru lru
        → (a : Allowlist N) (c : C) (path client : Bytes) → IsConsistent a c
        → (is_next (check net lru a c path client).1
            ≡ (unrestricted net a || health_path net lru path || permitted a client))
          × IsConsistent a (check net lru a c path client).0
    unfolding check
    check_lem L a c path client h = elim (Bool-cases (unrestricted net a)) [
      | inl e ↦ rw (e, check) (refl, h)
      | inr e ↦ elim (Bool-cases (health_path net lru path)) [
        | inl p ↦ rw (e, p, check) (refl, h)
        | inr p ↦ rw (e, p, check) (decide_cached_lem L a c client h)
      ]
    ]

  -- The address is one of the list, or in one of its networks.
  abbrev pub IsListed : Allowlist N → A → Type 0
  IsListed a ip =
      Some (λ (i : Bytes). i ≡ net.ip_string ip) a.exact_ips
      ⊎ Some (λ (n : N). net.network_contains n ip ≡ true) a.allowed_networks

  -- The address can be parsed and is listed.
  abbrev pub IsPermitted : Allowlist N → Bytes → Type 0
  IsPermitted a client = (ip : A) × (net.parse_ip client ≡ some ip) × IsListed a ip

  any_contains_iff :
      (ns : List N) (ip : A)
      → (any_contains net ns ip ≡ true) ↔ Some (λ (n : N). net.network_contains n ip ≡ true) ns
  unfolding any_contains
  any_contains_iff [] ip = (λ h. absurd (cc h), λ h. absurd h)
  any_contains_iff (n ∷ ns) ip = either_iff _ _ (λ h. h, λ h. h) (any_contains_iff ns ip)

  ip_allowed_iff : (a : Allowlist N) (ip : A) → (ip_allowed net a ip ≡ true) ↔ IsListed a ip
  unfolding ip_allowed
  ip_allowed_iff a ip =
      either_iff _ _ (member_iff a.exact_ips (net.ip_string ip))
        (any_contains_iff a.allowed_networks ip)

  permitted_iff :
      (a : Allowlist N) (client : Bytes) → (permitted a client ≡ true) ↔ IsPermitted a client
  permitted_iff a client = elim (Option-cases (net.parse_ip client)) [
    | inl e ↦ (λ h. absurd (cc (sym (refused e) ∙ h)), λ (ip, f, listed). absurd (cc (sym e ∙ f)))
    | inr (ip, e) ↦ (
      λ h. (ip, e, (ip_allowed_iff a ip).0 (sym (decided ip e) ∙ h)),
      λ (ip2, f, listed). decided ip2 f ∙ (ip_allowed_iff a ip2).1 listed,
    )
  ]
    where
      refused : net.parse_ip client ≡ none → permitted a client ≡ false
      refused e = rw (e, permitted) refl

      decided : (ip : A) → net.parse_ip client ≡ some ip → permitted a client ≡ ip_allowed net a ip
      decided ip e = rw (e, permitted) refl

  module _ {C : Type 0} (lru : Lru C) where
    -- The paths of the health checks.
    abbrev pub IsHealthPath : Bytes → Type 0
    IsHealthPath path =
        (path ≡ bytes "/health") ⊎ (path ≡ bytes "/health/detailed") ⊎ (path ≡ bytes "/ping")

    health_path_iff : (path : Bytes) → (health_path net lru path ≡ true) ↔ IsHealthPath path
    unfolding health_path
    health_path_iff path = (
      λ h. ground (
        arith,
        h,
        str_eq_iff path (bytes "/health"),
        str_eq_iff path (bytes "/health/detailed"),
        str_eq_iff path (bytes "/ping"),
      ),
      λ h. ground (
        arith,
        h,
        str_eq_iff path (bytes "/health"),
        str_eq_iff path (bytes "/health/detailed"),
        str_eq_iff path (bytes "/ping"),
      ),
    )

    unrestricted_iff :
        (a : Allowlist N)
        → (unrestricted net a ≡ true) ↔ ((a.allowed_networks ≡ []) × (a.exact_ips ≡ []))
    unrestricted_iff a = by_lists a.allowed_networks a.exact_ips
      where
        by_lists :
            (ns : List N) (is : List Bytes)
            → ((is_nil ns && is_nil is) ≡ true) ↔ ((ns ≡ []) × (is ≡ []))
        by_lists [] [] = (λ h. (refl, refl), λ h. refl)
        by_lists [] (i ∷ is) = (λ h. absurd (cc h), λ h. absurd (cc h.1))
        by_lists (n ∷ ns) is = (λ h. absurd (cc h), λ h. absurd (cc h.0))

    passes_iff :
        (answer : Answer) (x y z : Bool)
        → is_next answer ≡ (x || y || z)
        → (answer ≡ next) ↔ ((x ≡ true) ⊎ (y ≡ true) ⊎ (z ≡ true))
    passes_iff next x y z e = (λ h. ground (arith, e), λ h. refl)
    passes_iff access_denied x y z e = (λ h. absurd (cc h), λ h. absurd (ground (arith, e, h)))
    passes_iff invalid_ip_format x y z e = (λ h. absurd (cc h), λ h. absurd (ground (arith, e, h)))

    -- With an LRU cache whose entries agree with the list, a request passes exactly if the list
    -- is empty, the path is one of the health checks, or its address parses, and is one of the
    -- addresses of the list or in one of its networks; the cache still agrees afterwards, so that
    -- no answer ever depends on what is cached.
    pub check_iff :
        IsLru lru
        → (a : Allowlist N) (c : C) (path client : Bytes) → IsConsistent lru a c
        → (((check net lru a c path client).1 ≡ next) ↔ (
            ((a.allowed_networks ≡ []) × (a.exact_ips ≡ []))
            ⊎ IsHealthPath path
            ⊎ IsPermitted a client))
          × IsConsistent lru a (check net lru a c path client).0
    check_iff L a c path client h =
        let parts =
          passes_iff (check net lru a c path client).1 (unrestricted net a)
            (health_path net lru path) (permitted a client) (check_lem lru L a c path client h).0 in
        (
          (
            λ e. elim (parts.0 e) [
              | inl x ↦ inl ((unrestricted_iff a).0 x)
              | inr (inl x) ↦ inr (inl ((health_path_iff path).0 x))
              | inr (inr x) ↦ inr (inr ((permitted_iff a client).0 x))
            ],
            λ s. parts.1 (elim s [
              | inl x ↦ inl ((unrestricted_iff a).1 x)
              | inr (inl x) ↦ inr (inl ((health_path_iff path).1 x))
              | inr (inr x) ↦ inr (inr ((permitted_iff a client).1 x))
            ]),
          ),
          (check_lem lru L a c path client h).1,
        )
