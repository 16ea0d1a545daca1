-- ===== src/Server/Incidents/Requests.antt =====
-- The requests for incidents that the client makes (web/src/views/IncidentListView.vue,
-- web/src/stores/incidents.ts), as the server reads them (internal/api/incidents.go). The package of
-- the routes splits a query into its parameters.
use native.Mathlib.Nat.{div-add-mod, mod-lt}
use mitigador.Base.{
  ℕ, zero, suc, ◌+◌, ◌-◌, ◌*◌, ◌/◌, ◌%◌, ◌^◌, ◌<◌, ◌≤◌, String, Bool, true, false, Option, some,
  ltb, ◌≡◌, refl, ◌∙◌, ap, inl, inr, Bool-cases, eq_iff, arith, ◌==◌,
}
use mitigador.Base.Decimal.{digit, code-digit, show_before, show}
use mitigador.Aggregate.{Addr}
use mitigador.Records.Query.{any_filter}
use mitigador.Records.Query.Paging.{page_filter}
use mitigador.Server.Incidents.{
  good, Query, is_digit, digits, number, fits, atoi, pos, at_least, read_param, or_zero,
  known_vector, filter_of,
}
use mitigador.Views.IncidentList.{page_size, offset}

is_digit-digit : (d : ℕ) → d < 10 → is_digit (digit d) ≡ true
unfolding is_digit
is_digit-digit d h = rw (code-digit d h) (ground arith)

digits-digit :
    (n d : ℕ) (s : String) {m : ℕ}
    → d < 10
    → 10 * n + d ≡ m
    → digits n (String.◌∷◌ (digit d) s) ≡ digits m s
unfolding digits
digits-digit n d s h e =
    rw (is_digit-digit d h) (ap (λ k. digits k s) (omega (arith, code-digit d h, e)))

digits-show_before :
    (fuel n : ℕ) (s : String) → n < fuel → digits 0 (show_before fuel n s) ≡ digits n s
unfolding show_before
digits-show_before zero n s h = elim h [ ]
digits-show_before (suc fuel) n s h = elim (Bool-cases (ltb n 10)) [
  | inl e ↦ rw e (digits-digit 0 n s (ground arith) (omega arith))
  | inr e ↦
      let large : 10 ≤ n = ground arith in
      let parts = div-add-mod n 10 in
      let small = mod-lt n {m = 10} (omega arith) in
      rw e (
        digits-show_before fuel (n / 10) (String.◌∷◌ (digit (n % 10)) s)
          (omega (arith, large, parts))
        ∙ digits-digit (n / 10) (n % 10) s small (omega (arith, parts)))
]

abbrev starts : String → Bool
unfolding is_digit
starts String.[] = false
starts (String.◌∷◌ c s) = is_digit c

starts-show_before : (fuel n : ℕ) (s : String) → n < fuel → starts (show_before fuel n s) ≡ true
unfolding show_before starts is_digit
starts-show_before zero n s h = elim h [ ]
starts-show_before (suc fuel) n s h = elim (Bool-cases (ltb n 10)) [
  | inl e ↦ rw e (is_digit-digit n (ground arith))
  | inr e ↦
      let large : 10 ≤ n = ground arith in
      rw e (
        starts-show_before fuel (n / 10) (String.◌∷◌ (digit (n % 10)) s)
          (omega (arith, large, div-add-mod n 10)))
]

atoi-starts : (s : String) → starts s ≡ true → atoi s ≡ fits (digits 0 s)
unfolding atoi number is_digit
atoi-starts String.[] h = cc
atoi-starts (String.◌∷◌ c s) h = ground arith

-- A number below 2 ^ 63 that one side prints the other reads back.
pub atoi-show : (n : ℕ) → n < 2 ^ 63 → atoi (show n) ≡ some (pos n)
unfolding show fits digits
atoi-show n h =
    let read : digits 0 (show_before (suc n) n "") ≡ some n =
      digits-show_before (suc n) n "" (omega arith) in
    atoi-starts (show n) (starts-show_before (suc n) n "" (omega arith)) ∙ rw read (ground arith)

starts-nonempty : (s : String) → starts s ≡ true → (s == "") ≡ false
unfolding is_digit
starts-nonempty s h = elim (Bool-cases (s == "")) [
  | inl e ↦ let empty : s ≡ "" = (eq_iff s "").0 e in cc
  | inr e ↦ e
]

read_param-show :
    (name : String) (parse : String → Option ℕ) (n : ℕ) {m : ℕ}
    → parse (show n) ≡ some m
    → read_param name parse (show n) ≡ good (some m)
unfolding read_param show
read_param-show name parse n h =
    rw (starts-nonempty (show n) (starts-show_before (suc n) n "" (omega arith)), h) refl

at_least-show : (least n : ℕ) → least ≤ n → n < 2 ^ 63 → at_least least (atoi (show n)) ≡ some n
unfolding at_least
at_least-show least n h k = rw (atoi-show n k) (ground arith)

abbrev pub blank_query : Query
blank_query = record {
  vector = "";
  host_ip = "";
  since = "";
  until = "";
  active = "";
  limit = "";
  offset = "";
}

-- The client's numbers are floating point numbers. A product of whole numbers that is no more than
-- 2 ^ 53 is exact, and up to there a whole number is printed with its own digits; beyond, both may be
-- rounded.
pub record Doubles : Type 0 where
  pub times : ℕ → ℕ → ℕ
  pub print : ℕ → String
  pub times-exact : (a b : ℕ) → a * b ≤ 2 ^ 53 → times a b ≡ a * b
  pub print-exact : (n : ℕ) → n ≤ 2 ^ 53 → print n ≡ show n

-- `/api/incidents?limit=${pageSize}&offset=${offset.value}`, whose offset is
-- `(page.value - 1) * pageSize`; pages are counted from 1.
unfoldable pub page_query : Doubles → ℕ → Query
page_query d page = record blank_query {
  limit = d.print page_size;
  offset = d.print (d.times (page - 1) page_size);
}

-- `/api/incidents?active=true&limit=500`
abbrev pub snapshot_query : Query
snapshot_query = record blank_query { active = "true"; limit = "500" }

-- The server reads the request for a page of the list, as the client computes and prints it, as the
-- filter with the limit and the offset of that page, for offsets up to 2 ^ 53, and the request for
-- the snapshot as the filter for at most 500 incidents that are still open.
pub filter_of-page_query :
    (parse_addr : String → Option Addr) (parse_time : String → Option ℕ) (d : Doubles) (page : ℕ)
    → offset page ≤ 2 ^ 53
    → (filter_of parse_addr parse_time (page_query d page) ≡ good (page_filter page))
      × (filter_of parse_addr parse_time snapshot_query
          ≡ good (record any_filter { active_only = true; limit = 500 }))
unfolding filter_of page_query offset
filter_of-page_query parse_addr parse_time d page h =
    let from = (page - 1) * page_size in
    let printed : d.print (d.times (page - 1) page_size) ≡ show from =
      ap d.print (d.times-exact (page - 1) page_size h) ∙ d.print-exact from h in
    (
      rw
          (
            d.print-exact page_size (omega arith),
            printed,
            read_param-show "limit" (λ v. at_least 1 (atoi v)) 50
                (at_least-show 1 50 (omega arith) (omega arith)),
            read_param-show "offset" (λ v. at_least 0 (atoi v)) from
                (at_least-show 0 from (omega arith) (omega (arith, h))),
          )
          (unfold read_param or_zero in refl),
      unfold read_param known_vector at_least atoi or_zero number digits is_digit fits in refl,
    )
