-- ===== src/Detect/Catalog.antt =====
-- The rules of the detector and how a host finds its own (internal/detect/thresholds.go).
pub mod LongestPrefix
use Prim.Native.Nat.{Ordering}
use Prim.Native.String.{compare}
use mitigador.Base.{
  ℕ, ◌-◌, ◌/◌, ◌^◌, String, Bool, true, false, not, ◌&&◌, Option, none, some, List, [], ◌∷◌,
  if◌then◌else◌, eqb, ltb, ◌==◌,
}
use mitigador.Aggregate.{Addr, same_bool}
use mitigador.Detect.{Prefix, Threshold}

abbrev width : Bool → ℕ
width v6 = if v6 then 128 else 32

-- `Prefix.Contains`: the first bits of an address of the same family.
abbrev pub contains : Prefix → Addr → Bool
contains p ip =
    same_bool p.addr.v6 ip.v6
    && eqb (p.addr.value / 2 ^ (width ip.v6 - p.bits)) (ip.value / 2 ^ (width ip.v6 - p.bits))

-- `<` on texts.
abbrev text_ltb : String → String → Bool
text_ltb a b = elim (compare a b) [ Ordering.lt ↦ true | _ ↦ false ]

-- The order that the catalog is sorted by.
abbrev pub comes_before : Threshold → Threshold → Bool
comes_before t u =
    if not (eqb t.prefix.bits u.prefix.bits)
    then ltb u.prefix.bits t.prefix.bits
    else text_ltb t.hostgroup_name u.hostgroup_name

unfoldable pub insert : Threshold → List Threshold → List Threshold
insert t [] = t ∷ []
insert t (u ∷ us) = let rest = insert t us in if comes_before u t then u ∷ rest else t ∷ u ∷ us

-- `NewCatalogFromThresholds`. `sort.Slice` leaves open how rules that neither comes before the other
-- are ordered; here they stay in the order given.
unfoldable pub new_catalog : List Threshold → List Threshold
unfolding insert
new_catalog [] = []
new_catalog (t ∷ ts) = insert t (new_catalog ts)

-- The loop of `Lookup`, with `none` for a `bestBits` of -1.
unfoldable pub lookup_from : Option ℕ → Addr → List Threshold → List Threshold
lookup_from best ip [] = []
lookup_from best ip (t ∷ ts) = elim (contains t.prefix ip) [
  | false ↦ lookup_from best ip ts
  | true ↦ elim best [
    | none ↦ t ∷ lookup_from (some t.prefix.bits) ip ts
    | some b ↦ elim (ltb t.prefix.bits b) [ true ↦ [] | false ↦ t ∷ lookup_from (some b) ip ts ]
  ]
]

unfoldable pub lookup : Addr → List Threshold → List Threshold
unfolding lookup_from
lookup ip entries = lookup_from none ip entries

unfoldable pub first_of_vector : String → List Threshold → Option Threshold
first_of_vector v [] = none
first_of_vector v (t ∷ ts) = if t.vector == v then some t else first_of_vector v ts

unfoldable pub lookup_by_vector : Addr → String → List Threshold → Option Threshold
unfolding lookup first_of_vector
lookup_by_vector ip v entries = first_of_vector v (lookup ip entries)
