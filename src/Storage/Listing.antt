-- ===== src/Storage/Listing.antt =====
-- pkg/storage/filter.go and pkg/storage/pagination.go: which contents a filter lets through, and the
-- pages and counts over an iteration of the database. `now` is the clock's reading for the call.
pub mod Pages
pub mod Wanted
use content_storage_server.Prelude.{
  ℕ, zero, suc, ◌+◌, Bool, true, false, not, ◌&&◌, Option, none, some, List, [], ◌∷◌, ◌++◌, Bytes,
  str_eq, is_empty, ltb, length, if◌then◌else◌,
}
use content_storage_server.Prelude.Int64.{Int64, slt, sle}
use content_storage_server.Models.Content.{Content, is_expired}
use content_storage_server.Storage.Badger.{Badger, Codec, Item}
use content_storage_server.Storage.Error.{
  Error, Result, ok, err, unmarshal_failed, limit_not_positive, offset_negative,
}

pub record ContentFilter : Type 0 where
  pub content_type : Bytes
  pub tag : Bytes
  pub created_after : Option ℕ
  pub created_before : Option ℕ
  pub include_expired : Bool

abbrev pub created_before_time : Content → Option ℕ → Bool
created_before_time c none = false
created_before_time c (some t) = ltb c.created_at t

abbrev pub not_created_before : Content → Option ℕ → Bool
not_created_before c none = false
not_created_before c (some t) = not (ltb c.created_at t)

unfoldable pub matches : Content → ContentFilter → ℕ → Bool
unfolding is_expired
matches c f now =
    if not f.include_expired && is_expired c now
    then false
    else if not (is_empty f.content_type) && not (str_eq c.content_type f.content_type)
    then false
    else if not (is_empty f.tag) && not (str_eq c.tag f.tag)
    then false
    else if created_before_time c f.created_after
    then false
    else if not_created_before c f.created_before
    then false
    else true

-- A nil filter lets everything through that has not expired.
unfoldable pub matches_filter : ℕ → Option ContentFilter → Content → Bool
unfolding matches is_expired
matches_filter now none c = not (is_expired c now)
matches_filter now (some f) c = matches c f now

-- The value of an item, as a content.
unfoldable pub decode_item : Codec → Item → Result Content
decode_item j i = elim i.value [
  | err e ↦ err e
  | ok v ↦ elim (j.unmarshal v) [ none ↦ err unmarshal_failed | some c ↦ ok c ]
]

module _ (j : Codec) (now : ℕ) (f : Option ContentFilter) where
  -- The loop of `ListWithFilter`: `limit` is how many are still collected, `offset` how many are
  -- still skipped. It ends before an item is looked at once the limit is reached.
  unfoldable pub list_loop : ℕ → ℕ → List Item → Result (List Content)
  unfolding decode_item matches_filter
  list_loop limit offset [] = ok []
  list_loop zero offset (i ∷ is) = ok []
  list_loop (suc limit) offset (i ∷ is) = elim (decode_item j i) [
    | err e ↦ err e
    | ok c ↦ elim (matches_filter now f c) [
      | false ↦ list_loop (suc limit) offset is
      | true ↦ elim offset [
        | suc skips ↦ list_loop (suc limit) skips is
        | zero ↦ elim (list_loop limit zero is) [ err e ↦ err e | ok cs ↦ ok (c ∷ cs) ]
      ]
    ]
  ]

  unfoldable pub count_loop : List Item → Result ℕ
  unfolding decode_item matches_filter
  count_loop [] = ok 0
  count_loop (i ∷ is) = elim (decode_item j i) [
    | err e ↦ err e
    | ok c ↦ elim (count_loop is) [
      | err e ↦ err e
      | ok n ↦ ok (if matches_filter now f c then suc n else n)
    ]
  ]

  module _ {D B : Type 0} (b : Badger D B) where
    unfoldable pub list_with_filter : D → Int64 → Int64 → Result (List Content)
    unfolding list_loop
    list_with_filter db limit offset =
        if sle limit 0
        then err limit_not_positive
        else if slt offset 0
        then err offset_negative
        else (elim (b.scan db) [ err e ↦ err e | ok is ↦ list_loop limit offset is ])

    -- An error counts as zero.
    unfoldable pub count_with_filter : D → ℕ
    unfolding count_loop
    count_with_filter db = elim (b.scan db) [
      | err e ↦ 0
      | ok is ↦ elim (count_loop is) [ err e ↦ 0 | ok n ↦ n ]
    ]
