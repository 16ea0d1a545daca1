-- ===== src/Detect/Engine/Observe.antt =====
-- The ways that `evalHost` can go (internal/detect/engine.go).
use mathlib.Core.Bool.{true≢false}
use mathlib.Core.Option.{none-ne-some, some-injective}
use mitigador.Base.{
  ℕ, ◌≤◌, String, Bool, true, false, ◌||◌, Option, none, some, List, [], ◌∷◌, All, eqb, ltb, ◌==◌,
  ◌≡◌, inl, inr, refl, subst, arith, Bool-cases,
}
use mitigador.Aggregate.{Addr, Bucket}
use mitigador.Detect.{Threshold}
use mitigador.Detect.Catalog.{contains, lookup_from, lookup, first_of_vector, lookup_by_vector}
use mitigador.Detect.Engine.{Engine, averaged, judge, observe, is_empty, buckets_of, classify}

-- The rules have a window, as the database checks.
abbrev pub HasWindow : Threshold → Type 0
HasWindow t = 1 ≤ t.min_window_sec

pub averaged-ne-zero :
    (t : Threshold) (buckets : List Bucket)
    → HasWindow t
    → is_empty buckets ≡ false
    → eqb (averaged t buckets) 0 ≡ false
averaged-ne-zero t [] has full = absurd (true≢false full)
averaged-ne-zero t (b ∷ bs) has full = ground (arith, has)

lookup_from-All :
    (best : Option ℕ) (ip : Addr) (ts : List Threshold)
    → All HasWindow ts
    → All HasWindow (lookup_from best ip ts)
unfolding lookup_from
lookup_from-All best ip [] all = tt
lookup_from-All none ip (t ∷ ts) (has, all) = elim (Bool-cases (contains t.prefix ip)) [
  | inl holds ↦ rw (holds, All) (has, lookup_from-All (some t.prefix.bits) ip ts all)
  | inr other ↦ rw (other, All) (lookup_from-All none ip ts all)
]
lookup_from-All (some b) ip (t ∷ ts) (has, all) = elim (Bool-cases (contains t.prefix ip)) [
  | inl holds ↦ elim (Bool-cases (ltb t.prefix.bits b)) [
    | inl shorter ↦ rw (holds, shorter, All) tt
    | inr as_long ↦ rw (holds, as_long, All) (has, lookup_from-All (some b) ip ts all)
  ]
  | inr other ↦ rw (other, All) (lookup_from-All (some b) ip ts all)
]

first_of_vector-Has :
    (v : String) (ts : List Threshold) (t : Threshold)
    → All HasWindow ts
    → first_of_vector v ts ≡ some t
    → HasWindow t
unfolding first_of_vector
first_of_vector-Has v [] t all h = absurd (none-ne-some t h)
first_of_vector-Has v (u ∷ us) t (has, all) h = elim (Bool-cases (u.vector == v)) [
  | inl same ↦ subst HasWindow (some-injective u t (rw same at h)) has
  | inr other ↦ first_of_vector-Has v us t all (rw other at h)
]

pub lookup_by_vector-Has :
    (ip : Addr) (v : String) (ts : List Threshold) (t : Threshold)
    → All HasWindow ts
    → lookup_by_vector ip v ts ≡ some t
    → HasWindow t
unfolding lookup_by_vector lookup
lookup_by_vector-Has ip v ts t has h =
    first_of_vector-Has v (lookup_from none ip ts) t (lookup_from-All none ip ts has) h

pub not-empty : (a b c : Bool) → (a || b || c) ≡ false → b ≡ false
not-empty a b c h = ground arith

module _ {R : Type 0} (new_ulid : ℕ → R → String × R) (confidence : ℕ → ℕ → Threshold → ℕ → ℕ) where
  -- The tests of `evalHost` before the rule is looked up.
  abbrev pub skips : Addr → ℕ → Engine R → Bool
  skips ip sec e =
      is_empty (lookup ip e.catalog)
      || is_empty (buckets_of new_ulid confidence ip sec e)
      || classify (buckets_of new_ulid confidence ip sec e) == ""

  pub observe-skipped :
      (ip : Addr) (sec now : ℕ) (e : Engine R)
      → skips ip sec e ≡ true
      → observe new_ulid confidence ip sec now e ≡ some (none, e)
  unfolding observe
  observe-skipped ip sec now e h = rw (h, observe) refl

  pub observe-unruled :
      (ip : Addr) (sec now : ℕ) (e : Engine R)
      → skips ip sec e ≡ false
      → lookup_by_vector ip (classify (buckets_of new_ulid confidence ip sec e)) e.catalog ≡ none
      → observe new_ulid confidence ip sec now e ≡ some (none, e)
  unfolding observe
  observe-unruled ip sec now e h h' = rw (h, h', observe) refl

  pub observe-judged :
      (ip : Addr) (sec now : ℕ) (e : Engine R) (t : Threshold)
      → skips ip sec e ≡ false
      → lookup_by_vector ip (classify (buckets_of new_ulid confidence ip sec e)) e.catalog ≡ some t
      → observe new_ulid confidence ip sec now e
        ≡ judge new_ulid confidence
            (record { host_ip = ip; vector = classify (buckets_of new_ulid confidence ip sec e) })
            now
            (buckets_of new_ulid confidence ip sec e)
            t
            e
  unfolding observe
  observe-judged ip sec now e t h h' = rw (h, h', observe) refl
