-- ===== src/Storage/Listing/Pages.antt =====
-- The pages of pkg/storage/pagination.go are the pages of the contents that pass the filter.
use content_storage_server.Prelude.{
  ℕ, zero, suc, ◌+◌, ◌<◌, ◌≡◌, refl, ap, ◌∙◌, Bool, Option, List, [], ◌∷◌, ◌++◌, arith, length,
  keep, take, drop, take-add, drop-add,
}
use content_storage_server.Prelude.Int64.{Int64}
use content_storage_server.Models.Content.{Content}
use content_storage_server.Storage.Badger.{Badger, Codec, Item}
use content_storage_server.Storage.Error.{ok}
use content_storage_server.Storage.Listing.{
  ContentFilter, matches_filter, decode_item, list_loop, count_loop, list_with_filter,
  count_with_filter,
}

-- The items decode to the contents, one by one.
abbrev pub Decodes : Codec → List Item → List Content → Type 0
Decodes j [] [] = Unit {0}
Decodes j [] (c ∷ cs) = ⊥
Decodes j (i ∷ is) [] = ⊥
Decodes j (i ∷ is) (c ∷ cs) = (decode_item j i ≡ ok c) × Decodes j is cs

module _ (j : Codec) (now : ℕ) (f : Option ContentFilter) where
  abbrev passes : Content → Bool
  passes = matches_filter now f

  list_loop_lem :
      (is : List Item) (cs : List Content) (limit offset : ℕ)
      → Decodes j is cs
      → list_loop j now f limit offset is ≡ ok (take limit (drop offset (keep passes cs)))
  unfolding list_loop keep
  list_loop_lem [] [] zero offset d = refl
  list_loop_lem [] [] (suc limit) zero d = refl
  list_loop_lem [] [] (suc limit) (suc skips) d = refl
  list_loop_lem [] (c ∷ cs) limit offset d = elim d [ ]
  list_loop_lem (i ∷ is) [] limit offset d = elim d [ ]
  list_loop_lem (i ∷ is) (c ∷ cs) zero offset d = refl
  list_loop_lem (i ∷ is) (c ∷ cs) (suc limit) zero d =
      ground
        (arith, list_loop_lem is cs (suc limit) zero d.1, list_loop_lem is cs limit zero d.1, d.0)
  list_loop_lem (i ∷ is) (c ∷ cs) (suc limit) (suc skips) d = ground (
    arith,
    list_loop_lem is cs (suc limit) (suc skips) d.1,
    list_loop_lem is cs (suc limit) skips d.1,
    d.0,
  )

  count_loop_lem :
      (is : List Item) (cs : List Content)
      → Decodes j is cs
      → count_loop j now f is ≡ ok (length (keep passes cs))
  unfolding count_loop keep
  count_loop_lem [] [] d = refl
  count_loop_lem [] (c ∷ cs) d = elim d [ ]
  count_loop_lem (i ∷ is) [] d = elim d [ ]
  count_loop_lem (i ∷ is) (c ∷ cs) d = ground (arith, count_loop_lem is cs d.1, d.0)

  module _ {D B : Type 0} (b : Badger D B) (db : D) (is : List Item) (cs : List Content) where
    -- On a database whose entries decode to `cs`, a page with a positive limit is what is left of
    -- the contents that pass the filter after the first `offset`, cut to `limit`; limit and
    -- offset are below 2 ^ 63.
    pub list_with_filter_lem :
        (limit offset : Int64)
        → b.scan db ≡ ok is
        → Decodes j is cs
        → 0 < limit
        → limit < 9223372036854775808
        → offset < 9223372036854775808
        → list_with_filter j now f b db limit offset
          ≡ ok (take limit (drop offset (keep passes cs)))
    unfolding list_with_filter
    list_with_filter_lem limit offset scanned d pos small small' =
        ground (arith, scanned, list_loop_lem is cs limit offset d)

    -- On a database whose entries decode to `cs`, the count is the number of these contents that
    -- pass the filter.
    pub count_with_filter_lem :
        b.scan db ≡ ok is
        → Decodes j is cs
        → count_with_filter j now f b db ≡ length (keep passes cs)
    unfolding count_with_filter
    count_with_filter_lem scanned d = ground (arith, scanned, count_loop_lem is cs d)

    -- On a database whose entries decode, two pages of one positive limit, one after the other,
    -- are together the page of twice the limit, if the sums stay below 2 ^ 63.
    pub pages-append :
        (limit offset : Int64)
        → b.scan db ≡ ok is
        → Decodes j is cs
        → 0 < limit
        → limit + limit < 9223372036854775808
        → offset + limit < 9223372036854775808
        → (xs ys : List Content) → list_with_filter j now f b db limit offset ≡ ok xs
        → list_with_filter j now f b db limit (offset + limit) ≡ ok ys
        → list_with_filter j now f b db (limit + limit) offset ≡ ok (xs ++ ys)
    pages-append limit offset scanned d pos small small' xs ys h k =
        let all = keep passes cs in
        list_with_filter_lem (limit + limit) offset scanned d (omega arith) small (omega arith)
        ∙ ap ok (
            take-add limit limit (drop offset all)
            ∙ cc (
              list_with_filter_lem limit offset scanned d pos (omega arith) (omega arith),
              list_with_filter_lem limit (offset + limit) scanned d pos (omega arith) small',
              drop-add offset limit all,
              h,
              k,
            ))
