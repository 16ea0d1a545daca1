-- ===== src/Aggregate/Addresses.antt =====
-- Addresses (`netip.Addr`, in internal/aggregate/store.go), compared by their parts.
use mathlib.Core.Path.{ap₂}
use mitigador.Base.{Bool, true, false, ◌&&◌, eqb, ◌≡◌, refl, sym, arith}
use mitigador.Aggregate.{Addr, same_addr, same_bool}

same_bool-eq : (a b : Bool) → same_bool a b ≡ true → a ≡ b
same_bool-eq true b h = sym h
same_bool-eq false true h = h
same_bool-eq false false h = refl

pub same_bool_refl : (a : Bool) → same_bool a a ≡ true
same_bool_refl true = refl
same_bool_refl false = refl

pub both : (a b : Bool) → (a && b) ≡ true → (a ≡ true) × (b ≡ true)
both true b h = (refl, h)
both false true h = (h, refl)
both false false h = (h, h)

pub same_addr-eq : (a b : Addr) → same_addr a b ≡ true → a ≡ b
same_addr-eq a b h =
    let (h₁, h₂) = both (same_bool a.v6 b.v6) (eqb a.value b.value) h in
    ap₂ (λ x y. record { v6 = x; value = y }) (same_bool-eq a.v6 b.v6 h₁) (ground (arith, h₂))
