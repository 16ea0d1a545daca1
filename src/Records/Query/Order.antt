-- ===== src/Records/Query/Order.antt =====
-- The order of the incidents that a query asks for (internal/incident/store.go, `ORDER BY started_at
-- DESC`).
use mitigador.Base.{
  ℕ, ◌≤◌, Bool, List, [], ◌∷◌, keep, length, if◌then◌else◌, leb, ◌≡◌, ◌≢◌, refl, All, arith,
  Bool-cases, inl, inr,
}
use mitigador.Records.{IncidentRow}

unfoldable pub insert : IncidentRow → List IncidentRow → List IncidentRow
insert r [] = r ∷ []
insert r (x ∷ rows) =
    let rest = insert r rows in if leb x.started_at r.started_at then r ∷ x ∷ rows else x ∷ rest

-- The newest first.
unfoldable pub newest_first : List IncidentRow → List IncidentRow
unfolding insert
newest_first [] = []
newest_first (r ∷ rows) = insert r (newest_first rows)

-- No two incidents started at the same instant.
abbrev pub AreApart : List IncidentRow → Type 0
AreApart [] = Unit
AreApart (r ∷ rows) = All (λ x. r.started_at ≢ x.started_at) rows × AreApart rows

abbrev pub IsNewest : List IncidentRow → Type 0
IsNewest [] = Unit
IsNewest (r ∷ rows) = All (λ x. x.started_at ≤ r.started_at) rows × IsNewest rows

insert-All :
    (p : IncidentRow → Type 0) (r : IncidentRow) (rows : List IncidentRow)
    → p r
    → All p rows
    → All p (insert r rows)
unfolding insert
insert-All p r [] h k = (h, tt)
insert-All p r (x ∷ rows) h k = elim (Bool-cases (leb x.started_at r.started_at)) [
  | inl e ↦ rw e (h, k)
  | inr e ↦ rw e (k.0, insert-All p r rows h k.1)
]

all_below :
    (m n : ℕ) (rows : List IncidentRow)
    → m ≤ n
    → All (λ x. x.started_at ≤ m) rows
    → All (λ x. x.started_at ≤ n) rows
all_below m n [] h k = tt
all_below m n (x ∷ rows) h k = (omega (arith, h, k.0), all_below m n rows h k.1)

insert-IsNewest :
    (r : IncidentRow) (rows : List IncidentRow) → IsNewest rows → IsNewest (insert r rows)
unfolding insert
insert-IsNewest r [] h = (tt, tt)
insert-IsNewest r (x ∷ rows) h = elim (Bool-cases (leb x.started_at r.started_at)) [
  | inl e ↦ rw e ((ground arith, all_below x.started_at r.started_at rows (ground arith) h.0), h)
  | inr e ↦ rw e (
    insert-All (λ y. y.started_at ≤ x.started_at) r rows (ground arith) h.0,
    insert-IsNewest r rows h.1,
  )
]

keep-insert :
    (p : IncidentRow → Bool) (r : IncidentRow) (rows : List IncidentRow)
    → length (keep p (insert r rows)) ≡ length (keep p (r ∷ rows))
unfolding insert
keep-insert p r [] = refl
keep-insert p r (x ∷ rows) = ground (arith, keep-insert p r rows)

-- The order is one of the rows by their starts, from the last to the first, and of every kind of row
-- it has as many as there were.
pub newest_first-IsNewest :
    (rows : List IncidentRow)
    → IsNewest (newest_first rows)
      × ((p : IncidentRow → Bool) → length (keep p (newest_first rows)) ≡ length (keep p rows))
unfolding newest_first
newest_first-IsNewest [] = (tt, λ p. refl)
newest_first-IsNewest (r ∷ rows) =
    let (sorted, counts) = newest_first-IsNewest rows in
    (
      insert-IsNewest r (newest_first rows) sorted,
      λ p. ground (arith, keep-insert p r (newest_first rows), counts p),
    )
