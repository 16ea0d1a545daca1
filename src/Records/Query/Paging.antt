-- ===== src/Records/Query/Paging.antt =====
-- The pages of the incidents that the server sends (internal/incident/store.go, `List`) for the
-- requests of the client's list (web/src/views/IncidentListView.vue).
use mitigador.Base.{
  ℕ, zero, suc, ◌≤◌, Bool, true, not, List, [], ◌∷◌, ◌++◌, keep, take_all, length-take_le, length,
  ◌≡◌, refl, sym, ap, ◌∙◌, is_some,
}
use mitigador.Views.IncidentList.{page_size, offset, page_count}
use mitigador.Views.IncidentList.Paging.{items_of, pages_from, pages_from-page_count}
use mitigador.Records.{IncidentRow}
use mitigador.Records.Query.{Filter, Database, list, limit_of, matches, any_filter, list_active}
use mitigador.Records.Query.Order.{newest_first, newest_first-IsNewest, AreApart}

keep_all :
    (p : IncidentRow → Bool) (rows : List IncidentRow)
    → ((r : IncidentRow) → p r ≡ true)
    → keep p rows ≡ rows
keep_all p [] h = refl
keep_all p (r ∷ rows) h = rw (h r) (ap (r ∷◌) (keep_all p rows h))

same_length :
    (xs ys : List IncidentRow)
    → ((p : IncidentRow → Bool) → length (keep p xs) ≡ length (keep p ys))
    → length xs ≡ length ys
same_length xs ys h =
    let every : IncidentRow → Bool = λ r. true in
    rw⁻¹ (keep_all every xs (λ r. refl)) (rw⁻¹ (keep_all every ys (λ r. refl)) (h every))

-- What the client's list asks for.
abbrev pub page_filter : ℕ → Filter
page_filter page = record any_filter { limit = page_size; offset = offset page }

matches_any : (page : ℕ) (r : IncidentRow) → matches (page_filter page) r ≡ true
unfolding matches
matches_any page r = refl

list-page_filter :
    (db : Database) (page : ℕ) (rows : List IncidentRow)
    → AreApart rows
    → (list db (page_filter page) rows).items ≡ items_of (newest_first rows) page
unfolding list limit_of
list-page_filter db page rows h =
    rw (keep_all (matches (page_filter page)) rows (matches_any page), db.ordered rows h) refl

list-total :
    (db : Database) (page : ℕ) (rows : List IncidentRow)
    → (list db (page_filter page) rows).total ≡ length rows
unfolding list
list-total db page rows = ap length (keep_all (matches (page_filter page)) rows (matches_any page))

-- The items of so many pages from one on, each from a query of its own.
abbrev pub pages_served : (ℕ → Database) → List IncidentRow → ℕ → ℕ → List IncidentRow
pages_served dbs rows zero page = []
pages_served dbs rows (suc n) page =
    (list (dbs page) (page_filter page) rows).items ++ pages_served dbs rows n (suc page)

pages_served-pages_from :
    (dbs : ℕ → Database) (rows : List IncidentRow) (n page : ℕ)
    → AreApart rows
    → pages_served dbs rows n page ≡ pages_from (newest_first rows) n page
pages_served-pages_from dbs rows zero page h = refl
pages_served-pages_from dbs rows (suc n) page h =
    rw (list-page_filter (dbs page) page rows h, pages_served-pages_from dbs rows n (suc page) h)
      refl

-- While the table stays as it is, and if no two incidents started at the same instant, the pages
-- that the client offers for the total which any of its requests returns, each as the server sends
-- it, make up all the incidents, from the newest to the oldest, none twice and none left out.
pub pages_served-list :
    (dbs : ℕ → Database) (rows : List IncidentRow) (page : ℕ)
    → AreApart rows
    → pages_served dbs rows (page_count (list (dbs page) (page_filter page) rows).total) 1
      ≡ newest_first rows
pages_served-list dbs rows page h =
    let count : length (newest_first rows) ≡ length rows =
      same_length (newest_first rows) rows (newest_first-IsNewest rows).1 in
    rw
      (
        list-total (dbs page) page rows,
        pages_served-pages_from dbs rows (page_count (length rows)) 1 h,
      )
      (ap (λ n. pages_from (newest_first rows) (page_count n) 1) (sym count)
        ∙ (pages_from-page_count (newest_first rows)).0)

abbrev is_open : IncidentRow → Bool
is_open r = not (is_some r.ended_at)

-- The query for the incidents that are still open returns at most 500, and, if there are no more,
-- all of them and nothing else: of every kind of incident as many as are open.
list_active_lem :
    (db : Database) (rows : List IncidentRow)
    → (length (list_active db rows) ≤ 500)
      × (length (keep is_open rows) ≤ 500
          → (p : IncidentRow → Bool)
          → length (keep p (list_active db rows)) ≡ length (keep p (keep is_open rows)))
unfolding list_active list limit_of matches
list_active_lem db rows =
    let found = keep is_open rows in
    (
      length-take_le 500 (db.order found),
      λ h p.
          rw
            (take_all 500 (db.order found)
              (rw (same_length (db.order found) found (db.counts found)) h))
            (db.counts found p),
    )
