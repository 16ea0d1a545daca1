-- ===== src/Views/Analytics/Nodes.antt =====
-- The diagram of the flows (`sankeyOption` of web/src/views/AnalyticsView.vue).
use mitigador.Base.{
  ℕ, String, Bool, false, ◌||◌, Option, none, some, List, [], ◌∷◌, ◌++◌, map, any, ◌==◌, ◌≡◌, ◌⊎◌,
  refl, arith, eq_iff, Bool-cases, inl, inr,
}
use mitigador.Api.Dashboard.{DashboardAnalytics, DashboardSankeyEdge}
use mitigador.Views.Dashboard.{has, add}
use mitigador.Views.Dashboard.Timers.{has-add, any-append}

pub record Link : Type 0 where
  pub source : String
  pub target : String
  pub value : ℕ

pub record Sankey : Type 0 where
  pub data' : List String
  pub links : List Link

-- The loop that collects the names, from a set of names on.
unfoldable pub collect : List DashboardSankeyEdge → List String → List String
unfolding add
collect [] names = names
collect (e ∷ edges) names = collect edges (add e.target (add e.source names))

abbrev link : DashboardSankeyEdge → Link
link e = record { source = e.source; target = e.target; value = e.bytes }

drawn : List DashboardSankeyEdge → Option Sankey
unfolding collect
drawn [] = none
drawn (e ∷ edges) = some (record { data' = collect (e ∷ edges) []; links = map link (e ∷ edges) })

unfoldable pub sankey : Option DashboardAnalytics → Option Sankey
unfolding drawn
sankey none = none
sankey (some a) = drawn a.sankey

abbrev pub IsNames : List String → Type 0
IsNames [] = Unit
IsNames (n ∷ names) = (has names n ≡ false) × IsNames names

-- An edge starts or ends there.
abbrev pub touches : String → List DashboardSankeyEdge → Bool
touches n edges = any (λ e. e.source == n || e.target == n) edges

IsNames-append :
    (id : String) (names : List String)
    → has names id ≡ false
    → IsNames names
    → IsNames (names ++ id ∷ [])
IsNames-append id [] h k = (refl, tt)
IsNames-append id (n ∷ names) h k = (
  ground (arith, any-append (λ j. j == n) names id, k.0, h, eq_iff n id, eq_iff id n),
  IsNames-append id names (ground (arith, h)) k.1,
)

add-IsNames : (id : String) (names : List String) → IsNames names → IsNames (add id names)
unfolding add
add-IsNames id names h = elim (Bool-cases (has names id)) [
  | inl known ↦ rw known h
  | inr new ↦ rw new (IsNames-append id names new h)
]

has-collect :
    (n : String) (edges : List DashboardSankeyEdge) (names : List String)
    → has (collect edges names) n ≡ has names n || touches n edges
unfolding collect
has-collect n [] names = ground arith
has-collect n (e ∷ edges) names = ground (
  arith,
  has-collect n edges (add e.target (add e.source names)),
  has-add e.target n (add e.source names),
  has-add e.source n names,
)

collect-IsNames :
    (edges : List DashboardSankeyEdge) (names : List String)
    → IsNames names
    → IsNames (collect edges names)
unfolding collect
collect-IsNames [] names h = h
collect-IsNames (e ∷ edges) names h =
    collect-IsNames edges _ (add-IsNames e.target _ (add-IsNames e.source names h))

-- The nodes of the diagram are distinct, and they are exactly the ends of its links.
abbrev pub IsDiagram : List DashboardSankeyEdge → Sankey → Type 0
IsDiagram edges s =
    IsNames s.data' × ((n : String) → has s.data' n ≡ touches n edges) × (s.links ≡ map link edges)

-- The diagram of the flows has a link for each edge that the server sends, in their order, and for
-- its nodes each end of an edge once and nothing else; without an edge there is none.
pub sankey_lem :
    (a : DashboardAnalytics)
    → ((sankey (some a) ≡ none) × (a.sankey ≡ []))
      ⊎ ((s : Sankey) × (sankey (some a) ≡ some s) × IsDiagram a.sankey s)
unfolding sankey
sankey_lem a = by_edges a.sankey
  where
    by_edges :
        (edges : List DashboardSankeyEdge)
        → ((drawn edges ≡ none) × (edges ≡ []))
          ⊎ ((s : Sankey) × (drawn edges ≡ some s) × IsDiagram edges s)
    by_edges [] = inl (refl, refl)
    by_edges (e ∷ edges) = inr (
      record { data' = collect (e ∷ edges) []; links = map link (e ∷ edges) },
      refl,
      (collect-IsNames (e ∷ edges) [] tt, λ n. has-collect n (e ∷ edges) [], refl),
    )
