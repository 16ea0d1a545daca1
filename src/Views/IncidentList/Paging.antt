-- ===== src/Views/IncidentList/Paging.antt =====
-- The pages of the list of the incidents (web/src/views/IncidentListView.vue).
use mitigador.Base.{
  ℕ, zero, suc, ◌+◌, ◌*◌, ◌≤◌, false, some, List, [], ◌++◌, length, take, drop, take-drop,
  drop-drop, drop-all, length-drop, take-nonempty, ◌≡◌, refl, sym, arith,
}
use mitigador.Api.Http.{ok}
use mitigador.Views.IncidentList.{
  IncidentPage, initial, page_size, offset, page_count, load_incidents, incidents_reply, go_to_page,
}

offset-suc : (page : ℕ) → 1 ≤ page → offset (suc page) ≡ offset page + 50
unfolding offset
offset-suc page h = omega arith

module _ {ℓ} {A : Type ℓ} where
  -- The items that the request for a page asks for.
  abbrev pub items_of : List A → ℕ → List A
  items_of all page = take page_size (drop (offset page) all)

  -- The items of so many pages from one on.
  abbrev pub pages_from : List A → ℕ → ℕ → List A
  pages_from all zero page = []
  pages_from all (suc n) page = items_of all page ++ pages_from all n (suc page)

  pages_from-drop :
      (all : List A) (n page : ℕ)
      → 1 ≤ page
      → length all ≤ offset page + n * 50
      → pages_from all n page ≡ drop (offset page) all
  pages_from-drop all zero page h k = sym (drop-all (offset page) all (omega arith))
  pages_from-drop all (suc n) page h k =
      let next = offset-suc page h in
      let rest = pages_from-drop all n (suc page) (omega arith) (omega (arith, next)) in
      let same : drop (offset (suc page)) all ≡ drop 50 (drop (offset page) all) =
        sym (drop-drop (offset page) 50 (offset (suc page)) all next) in
      rw (rest, same) (take-drop 50 (drop (offset page) all))

  -- The pages that the pagination offers, each with the items that its request asks for, make up the
  -- whole list in its order, and none of them is empty.
  pub pages_from-page_count :
      (all : List A)
      → (pages_from all (page_count (length all)) 1 ≡ all)
        × ((page : ℕ) → 1 ≤ page → page ≤ page_count (length all) → 1 ≤ length (items_of all page))
  unfolding page_count offset
  pages_from-page_count all = (
    pages_from-drop all (page_count (length all)) 1 (omega arith) (omega arith),
    λ page h k.
        take-nonempty 49 (drop (offset page) all) (omega (arith, length-drop (offset page) all)),
  )

-- If the visitor goes on before the reply for the first page, and that reply comes last, the list
-- shows the first page's incidents under the number of the second, and no longer loads.
incidents_reply_late :
    (one two : IncidentPage)
    → let late =
        incidents_reply 0
          (ok (some one))
          (incidents_reply 50 (ok (some two)) (go_to_page 2 (load_incidents initial))) in
      (late.page ≡ 2) × (late.incidents ≡ one.items) × (late.loading ≡ false) × (late.calls ≡ [])
unfolding incidents_reply go_to_page load_incidents
incidents_reply_late one two = (refl, refl, refl, refl)
