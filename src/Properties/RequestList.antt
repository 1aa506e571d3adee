-- ===== src/Properties/RequestList.antt =====
-- The listing of requests with its filters, against what the filters ask for: app/repositories/request_repository.py
-- and app/services/request_service.py.
use mathlib.Core.Path.{subst}
use asset_pilot_fastapi.Repositories.{get_user}
use asset_pilot_fastapi.Properties.Selection.{Passes, is_selected-Passes}
use asset_pilot_fastapi.Table.Laws.{any-find}
use asset_pilot_fastapi.Repositories.Queries.Laws.{
  any-map, any-join, passes, length-filter, length-order_by, length-join, any-filter, any-order_by,
  length-map,
}
use asset_pilot_fastapi.Repositories.Queries.Each.{
  also, join-Each, drop-Each, take-Each, map-Each, weaken-Each, Each, find-Each, filter-Each,
  order_by-Each,
}
use asset_pilot_fastapi.Models.{User, Request}
use asset_pilot_fastapi.Views.{page_of}
use asset_pilot_fastapi.Views.Requests.{
  RequestResult, RequestListEntry, list_entry_from, result_from, list_request_entries,
}
use asset_pilot_fastapi.Database.{request_key, Db}
use asset_pilot_fastapi.Pagination.{offset, limit, list_page, PaginationParams}
use asset_pilot_fastapi.Repositories.{get_user, get_request}
use asset_pilot_fastapi.Repositories.Queries.{column, join, user_name, order_by, category_name, Sql}
use asset_pilot_fastapi.Repositories.Queries.RequestQueries.{
  RequestListRow, request_row, is_selected, newest_first, list_requests, RequestFilter,
}
use asset_pilot_fastapi.Invariant.{IsValid}
use asset_pilot_fastapi.Prelude.{
  ◌*◌, ◌*◌, String, refl, zero, Bool-cases, suc, ◌==◌, map, ◌==◌, ◌∷◌, take, Option-cases, sym,
  ◌&&◌, drop, ◌&&◌, ==_iff, length-take, ap, [], ◌∙◌, ==_refl, ◌∙◌, List, ◌↔◌, ◌↔◌, arith, Bool,
  inr, inl, any, ◌≤◌, ◌≤◌, length, filter, ◌≡◌, ◌≡◌, ℕ, true, false, some,
}

request_row-some :
    (db : Db) (r : Request) (row : RequestListRow)
    → request_row db r ≡ some row
    → (row.request ≡ r)
      × (category_name db r.category_id ≡ some row.category_name)
      × (user_name db r.requester_id ≡ some row.requester_name)
unfolding request_row
request_row-some db r row h = elim (Option-cases (category_name db r.category_id)) [
  | inl e ↦ ground (arith, e, h)
  | inr (c, e) ↦ elim (Option-cases (user_name db r.requester_id)) [
    | inl e' ↦ ground (arith, e, e', h)
    | inr (n, e') ↦ (ground (arith, e, e', h), ground (arith, e, e', h), ground (arith, e, e', h))
  ]
]

-- What a row of the listing is made of.
pub ShownBy : Sql → RequestFilter → Db → RequestListEntry → Type 0
ShownBy sql f db entry =
    (r : Request) × (get_request r.id db ≡ some r)
    × (entry.base ≡ result_from r)
    × (category_name db r.category_id ≡ some entry.category_name)
    × (user_name db r.requester_id ≡ some entry.requester_name)
    × Passes sql f db r

list_request_entries-ShownBy :
    (sql : Sql) (f : RequestFilter) (pagination : PaginationParams) (db : Db)
    → IsValid db
    → Each (ShownBy sql f db) (list_request_entries sql f pagination db).items
unfolding list_request_entries page_of list_requests list_page get_request limit offset ShownBy
list_request_entries-ShownBy sql f pagination db valid =
    weaken-Each
      (λ entry (row, (r, (found, chosen), joined), made).
        let (same_row, category, requester) = request_row-some db r row joined in
        (
          r,
          found,
          sym (ap (λ (e : RequestListEntry). e.base) made) ∙ ap result_from same_row,
          category ∙ ap (λ (e : RequestListEntry). some e.category_name) made,
          requester ∙ ap (λ (e : RequestListEntry). some e.requester_name) made,
          (is_selected-Passes sql f db r).0 chosen,
        ))
      _
      (map-Each list_entry_from _ (
        take-Each (limit pagination) _ (
          drop-Each (offset pagination) _ (
            join-Each (request_row db) _ (
              order_by-Each newest_first _ (
                filter-Each (is_selected sql f db) _
                  (find-Each request_key db.requests valid.request_keys)))))))

-- One page that has room for all requests.
abbrev pub whole : Db → PaginationParams
whole db = record { page = 1; page_size = length db.requests }

take_all {ℓ} : {A : Type ℓ} (n : ℕ) (xs : List A) → length xs ≤ n → take n xs ≡ xs
take_all zero [] h = refl
take_all zero (x ∷ xs) h = ground (arith, h)
take_all (suc n) [] h = refl
take_all (suc n) (x ∷ xs) h = ap (◌∷◌ x) (take_all n xs (ground (arith, h)))

drop_none {ℓ} : {A : Type ℓ} (k : ℕ) (xs : List A) → k ≡ 0 → drop k xs ≡ xs
drop_none zero xs h = refl
drop_none (suc k) xs h = ground (arith, h)

any-Each :
    {A : Type 0} {P : A → Type 0} (q : A → Bool) (xs : List A)
    → Each P xs
    → any q xs ≡ true
    → (x : A) × P x × (q x ≡ true)
any-Each q [] Each.every h = cc
any-Each q (x ∷ xs) (also p rest) h = elim (Bool-cases (q x)) [
  | inl e ↦ (x, p, e)
  | inr e ↦ any-Each q xs rest (ground (arith, e, h))
]

module _ (sql : Sql) (f : RequestFilter) (db : Db) (r : Request) where
  shows : RequestListEntry → Bool
  shows entry = entry.base.id == r.id

  all_rows : List RequestListRow
  all_rows =
      join (request_row db) (order_by newest_first (filter (is_selected sql f db) db.requests))

  whole_page : (list_request_entries sql f (whole db) db).items ≡ map list_entry_from all_rows
  unfolding list_request_entries page_of list_requests list_page limit offset all_rows
  whole_page =
      let selected = filter (is_selected sql f db) db.requests in
      ap (map list_entry_from) (
        ap (take (length db.requests)) (drop_none (0 * length db.requests) all_rows (omega arith))
        ∙ take_all (length db.requests) all_rows (
            omega (
              arith,
              length-join (request_row db) (order_by newest_first selected),
              length-order_by newest_first selected,
              length-filter (is_selected sql f db) db.requests,
            )))

  -- A stored request that passes the filters is on the whole page.
  shows_it :
      (name : String)
      → get_request r.id db ≡ some r
      → category_name db r.category_id ≡ some name
      → Passes sql f db r
      → any shows (list_request_entries sql f (whole db) db).items ≡ true
  unfolding shows all_rows get_request get_user request_row list_entry_from result_from
  shows_it name found category passes_all =
      elim (Bool-cases (any shows (list_request_entries sql f (whole db) db).items)) [
        | inl e ↦ e
        | inr e ↦
            let entry = λ (row : RequestListRow). shows (list_entry_from row) in
            let row_test = λ (x : Request). passes entry (request_row db x) in
            let selected = filter (is_selected sql f db) db.requests in
            let none_selected : any row_test selected ≡ false =
              sym (any-order_by row_test newest_first selected)
              ∙ sym (any-join entry (request_row db) (order_by newest_first selected))
              ∙ sym (any-map shows list_entry_from all_rows)
              ∙ sym (ap (any shows) whole_page)
              ∙ e in
            let none_stored =
              sym (any-filter row_test (is_selected sql f db) db.requests) ∙ none_selected in
            let fails =
              any-find request_key (λ x. is_selected sql f db x && row_test x) r.id db.requests
                {x = r} none_stored found in
            let (on, of, urgent, from, to, requester, its, mentioned) = passes_all in
            let by : user_name db r.requester_id ≡ some requester.name =
              ap (column (λ (u : User). u.name)) its in
            let chosen = (is_selected-Passes sql f db r).1 passes_all in
            ground (arith, fails, chosen, category, by, ==_refl r.id)
      ]

  -- A request that the whole page shows passes the filters.
  shown_it :
      IsValid db
      → get_request r.id db ≡ some r
      → any shows (list_request_entries sql f (whole db) db).items ≡ true
      → Passes sql f db r × (name : String) × (category_name db r.category_id ≡ some name)
  unfolding shows ShownBy result_from
  shown_it valid found shown =
      let (entry, (x, x_found, base, category, by, passes_all), is_it) =
        any-Each shows (list_request_entries sql f (whole db) db).items
          (list_request_entries-ShownBy sql f (whole db) db valid) shown in
      let same_id : x.id ≡ r.id =
        sym (ap (λ (b : RequestResult). b.id) base) ∙ (==_iff entry.base.id r.id).0 is_it in
      let same_row : some x ≡ some r =
        sym x_found ∙ ap (λ (k : ℕ). get_request k db) same_id ∙ found in
      let is_same : x ≡ r = cc in
      (
        subst (Passes sql f db) is_same passes_all,
        entry.category_name,
        ap (λ (q : Request). category_name db q.category_id) (sym is_same) ∙ category,
      )

-- In a valid database, a page of requests is no longer than its size; each entry shows a stored request, with the names of its category and of its requester as they are stored, and this request has the status, the category and the priority that are asked for, where they are, starts within the bounds that are given, and its requester's name or email matches the search, if there is one. And nothing else is left out: a page with room for all requests shows a stored request exactly if it passes these filters and its category is stored.
pub list_request_entries-shown :
    (sql : Sql) (f : RequestFilter) (pagination : PaginationParams) (db : Db) (r : Request)
    → IsValid db
    → get_request r.id db ≡ some r
    → (length (list_request_entries sql f pagination db).items ≤ pagination.page_size)
      × Each (ShownBy sql f db) (list_request_entries sql f pagination db).items
      × ((any
              (λ (e : RequestListEntry). e.base.id == r.id)
              (list_request_entries sql f (whole db) db).items
            ≡ true)
          ↔ (Passes sql f db r × (name : String) × (category_name db r.category_id ≡ some name)))
unfolding list_request_entries page_of list_requests list_page limit offset shows all_rows
list_request_entries-shown sql f pagination db r valid found =
    let rows = all_rows sql f db r in
    (
      omega (
        arith,
        length-map list_entry_from (list_page pagination rows).items,
        length-take (limit pagination) (drop (offset pagination) rows),
      ),
      list_request_entries-ShownBy sql f pagination db valid,
      (
        λ shown. shown_it sql f db r valid found shown,
        λ (passes_all, name, category). shows_it sql f db r name found category passes_all,
      ),
    )
