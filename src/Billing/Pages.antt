-- ===== src/Billing/Pages.antt =====
-- The listing of usage: a page of the events that pass the filters, and their count.
use fastapi.Prelude.{
  ℕ, String, ◌≡◌, ◌-◌, min, true, arith, length, filter, sort_by, drop, All, All-filter,
  All-sort_by, All-drop, All-take, length-take, length-drop, length-sort_by,
}
use fastapi.Db.{Tables}
use fastapi.Billing.Usage.{UsageFilter, is_listed, in_order, usage_page, usage_count}

-- Every event of a page is of the account and passes every filter, and the page is as long as the
-- count, less the offset, up to the limit.
usage_page_lem :
    (account_id : ℕ) (f : UsageFilter) (sort : String) (offset limit : ℕ) (t : Tables)
    → All (λ e. is_listed account_id f e ≡ true) (usage_page account_id f sort offset limit t)
      × (length (usage_page account_id f sort offset limit t)
          ≡ min limit (usage_count account_id f t - offset))
unfolding usage_page usage_count
usage_page_lem account_id f sort offset limit t =
    let p = is_listed account_id f in
    let found = filter p t.usage_events in
    let sorted = sort_by (in_order sort) found in
    (
      All-take (λ e. p e ≡ true) limit (drop offset sorted)
          (All-drop (λ e. p e ≡ true) offset sorted
            (All-sort_by (λ e. p e ≡ true) (in_order sort) found (All-filter p t.usage_events))),
      omega (
        arith,
        length-take limit (drop offset sorted),
        length-drop offset sorted,
        length-sort_by (in_order sort) found,
      ),
    )
