-- ===== src/Storage/Listing/Wanted.antt =====
-- What a filter of pkg/storage/filter.go asks of a content, spelled out.
use content_storage_server.Prelude.{
  ℕ, Bool, true, false, not, ◌&&◌, ◌||◌, Option, none, some, List, [], ◌∷◌, ◌≡◌, refl, ◌∙◌, inl,
  inr, arith, Bytes, str_eq, is_empty, leb, ltb, keep, Option-cases, if◌then◌else◌,
}
use content_storage_server.Models.Content.{Content, is_expired}
use content_storage_server.Storage.Listing.{
  ContentFilter, matches, matches_filter, created_before_time, not_created_before,
}

-- What a filter asks of a content: to have no expiry, or one that is not before `now`, unless expired
-- ones are included; to have its type and its tag, where it names them; and to be made at or after
-- the one time, and before the other, where it has them.
abbrev alive : ℕ → Option ℕ → Bool
alive now none = true
alive now (some t) = leb now t

abbrev named : Bytes → Bytes → Bool
named [] s = true
named (x ∷ xs) s = str_eq s (x ∷ xs)

abbrev at_or_after : Option ℕ → ℕ → Bool
at_or_after none t = true
at_or_after (some t0) t = leb t0 t

abbrev earlier : Option ℕ → ℕ → Bool
earlier none t = true
earlier (some t1) t = ltb t t1

abbrev pub is_wanted : ℕ → ContentFilter → Content → Bool
is_wanted now f c =
    (f.include_expired || alive now c.expires_at)
    && (named f.content_type c.content_type
        && (named f.tag c.tag
            && (at_or_after f.created_after c.created_at && earlier f.created_before c.created_at)))

alive_lem : (now : ℕ) (c : Content) → not (is_expired c now) ≡ alive now c.expires_at
unfolding is_expired
alive_lem now c = elim (Option-cases c.expires_at) [
  | inl e ↦ rw (e, is_expired) refl
  | inr (t, e) ↦ rw (e, is_expired) (ground arith)
]

named_lem : (name s : Bytes) → not (not (is_empty name) && not (str_eq s name)) ≡ named name s
named_lem [] s = refl
named_lem (x ∷ xs) s = ground arith

at_or_after_lem :
    (o : Option ℕ) (c : Content) → not (created_before_time c o) ≡ at_or_after o c.created_at
at_or_after_lem none c = refl
at_or_after_lem (some t) c = ground arith

earlier_lem : (o : Option ℕ) (c : Content) → not (not_created_before c o) ≡ earlier o c.created_at
earlier_lem none c = refl
earlier_lem (some t) c = ground arith

-- A chain of refusals lets through what none of them refuses.
chain_lem :
    (i x t g a e : Bool)
    → (if not i && x
        then false
        else if t
        then false
        else if g
        then false
        else if a
        then false
        else if e
        then false
        else true)
      ≡ ((i || not x) && (not t && (not g && (not a && not e))))
chain_lem i x t g a e = ground arith

matches_filter-wanted :
    (now : ℕ) (f : ContentFilter) (c : Content) → matches_filter now (some f) c ≡ is_wanted now f c
unfolding matches_filter matches
matches_filter-wanted now f c =
    chain_lem f.include_expired (is_expired c now)
      (not (is_empty f.content_type) && not (str_eq c.content_type f.content_type))
      (not (is_empty f.tag) && not (str_eq c.tag f.tag)) (created_before_time c f.created_after)
      (not_created_before c f.created_before)
    ∙ (rw
        (
          alive_lem now c,
          named_lem f.content_type c.content_type,
          named_lem f.tag c.tag,
          at_or_after_lem f.created_after c,
          earlier_lem f.created_before c,
        )
        refl)

pub keep-wanted :
    (now : ℕ) (f : ContentFilter) (cs : List Content)
    → keep (matches_filter now (some f)) cs ≡ keep (is_wanted now f) cs
keep-wanted now f cs = λ i. keep (λ c. matches_filter-wanted now f c i) cs
