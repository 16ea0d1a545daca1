-- ===== src/Detect/Engine/Keys.antt =====
-- The keys of the engine's maps (internal/detect/state.go, `Key`), compared by their parts.
use mathlib.Core.Path.{ap₂}
use mitigador.Base.{true, eqb_refl, ◌==◌, ◌≡◌, refl, eq_iff, eq_refl}
use mitigador.Aggregate.{same_addr}
use mitigador.Aggregate.Addresses.{same_bool_refl, both, same_addr-eq}
use mitigador.Detect.Machine.{Key}
use mitigador.Detect.Engine.{same_key}

pub same_key-eq : (a b : Key) → same_key a b ≡ true → a ≡ b
same_key-eq a b h =
    let (h₁, h₂) = both (same_addr a.host_ip b.host_ip) (a.vector == b.vector) h in
    ap₂ (λ x y. record { host_ip = x; vector = y }) (same_addr-eq a.host_ip b.host_ip h₁)
      ((eq_iff a.vector b.vector).0 h₂)

pub same_key_refl : (k : Key) → same_key k k ≡ true
same_key_refl k = rw (same_bool_refl k.host_ip.v6, eqb_refl k.host_ip.value, eq_refl k.vector) refl
