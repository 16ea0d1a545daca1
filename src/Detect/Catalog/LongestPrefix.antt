-- ===== src/Detect/Catalog/LongestPrefix.antt =====
-- The rules that a host finds (internal/detect/thresholds.go) are those of its longest prefix.
use mathlib.Core.List.{Permᴰ}
use mathlib.Core.List.Permᴰ
use mitigador.Base.{
  ℕ, ◌≤◌, ◌<◌, Bool, ◌&&◌, none, some, List, [], ◌∷◌, keep, All, if◌then◌else◌, eqb, ◌≡◌, inl, inr,
  refl, ◌∙◌, arith, Bool-cases,
}
use mitigador.Aggregate.{Addr}
use mitigador.Detect.{Threshold}
use mitigador.Detect.Machine.{max}
use mitigador.Detect.Catalog.{contains, comes_before, insert, new_catalog, lookup_from, lookup}

-- The most bits of the prefixes that hold an address.
abbrev pub best_bits : Addr → List Threshold → ℕ
best_bits ip [] = 0
best_bits ip (t ∷ ts) =
    if contains t.prefix ip then max t.prefix.bits (best_bits ip ts) else best_bits ip ts

abbrev pub is_best : Addr → ℕ → Threshold → Bool
is_best ip b t = contains t.prefix ip && eqb t.prefix.bits b

-- All the rules, in their own order, whose prefix holds the address and is as long as any that does.
abbrev pub longest : Addr → List Threshold → List Threshold
longest ip ts = keep (is_best ip (best_bits ip ts)) ts

-- Each prefix is at least as long as those after it.
abbrev Descends : List Threshold → Type 0
Descends [] = Unit
Descends (t ∷ ts) = All (λ u. u.prefix.bits ≤ t.prefix.bits) ts × Descends ts

insert-Perm : (t : Threshold) (us : List Threshold) → Permᴰ (insert t us) (t ∷ us)
unfolding insert
insert-Perm t [] = Permᴰ.refl (t ∷ [])
insert-Perm t (u ∷ us) = elim (Bool-cases (comes_before u t)) [
  | inl first ↦ rw first (Permᴰ.trans (Permᴰ.cons refl (insert-Perm t us)) (Permᴰ.swap refl refl))
  | inr later ↦ rw later (Permᴰ.refl (t ∷ u ∷ us))
]

new_catalog-Perm : (ts : List Threshold) → Permᴰ (new_catalog ts) ts
unfolding new_catalog
new_catalog-Perm [] = Permᴰ.nil
new_catalog-Perm (t ∷ ts) =
    Permᴰ.trans (insert-Perm t (new_catalog ts)) (Permᴰ.cons refl (new_catalog-Perm ts))

insert-All :
    (b : ℕ) (t : Threshold) (us : List Threshold)
    → t.prefix.bits ≤ b
    → All (λ u. u.prefix.bits ≤ b) us
    → All (λ u. u.prefix.bits ≤ b) (insert t us)
unfolding insert
insert-All b t [] h hs = (h, tt)
insert-All b t (u ∷ us) h (hu, hs) = elim (Bool-cases (comes_before u t)) [
  | inl first ↦ rw first (hu, insert-All b t us h hs)
  | inr later ↦ rw later (h, (hu, hs))
]

All-le :
    (b b' : ℕ) (us : List Threshold)
    → b ≤ b'
    → All (λ u. u.prefix.bits ≤ b) us
    → All (λ u. u.prefix.bits ≤ b') us
All-le b b' [] h hs = tt
All-le b b' (u ∷ us) h (hu, hs) = (omega (arith, h, hu), All-le b b' us h hs)

insert-Descends : (t : Threshold) (us : List Threshold) → Descends us → Descends (insert t us)
unfolding insert
insert-Descends t [] d = (tt, tt)
insert-Descends t (u ∷ us) (h, d) = elim (Bool-cases (comes_before u t)) [
  | inl first ↦
      rw first (insert-All u.prefix.bits t us (ground (arith, first)) h, insert-Descends t us d)
  | inr later ↦
      let le : u.prefix.bits ≤ t.prefix.bits = ground (arith, later) in
      rw later ((le, All-le u.prefix.bits t.prefix.bits us le h), (h, d))
]

new_catalog-Descends : (ts : List Threshold) → Descends (new_catalog ts)
unfolding new_catalog
new_catalog-Descends [] = tt
new_catalog-Descends (t ∷ ts) = insert-Descends t (new_catalog ts) (new_catalog-Descends ts)

keep_cons-Perm :
    (p : Threshold → Bool) (t : Threshold) (ts us : List Threshold)
    → Permᴰ (keep p ts) (keep p us)
    → Permᴰ (keep p (t ∷ ts)) (keep p (t ∷ us))
keep_cons-Perm p t ts us d = elim (Bool-cases (p t)) [
  | inl kept ↦ rw kept (Permᴰ.cons refl d)
  | inr gone ↦ rw gone d
]

keep_swap-Perm :
    (p : Threshold → Bool) (t u : Threshold) (ts : List Threshold)
    → Permᴰ (keep p (u ∷ t ∷ ts)) (keep p (t ∷ u ∷ ts))
keep_swap-Perm p t u ts = elim (Bool-cases (p t)) [
  | inl kept ↦ rw kept (elim (Bool-cases (p u)) [
    | inl kept' ↦ rw kept' (Permᴰ.swap refl refl)
    | inr gone ↦ rw gone (Permᴰ.refl _)
  ])
  | inr gone ↦ rw gone (Permᴰ.refl _)
]

keep-Perm :
    (p : Threshold → Bool) {ts us : List Threshold} → Permᴰ ts us → Permᴰ (keep p ts) (keep p us)
keep-Perm p Permᴰ.nil = Permᴰ.nil
keep-Perm p (Permᴰ.cons {a} {b} {l₁} {l₂} e d) = rw e (keep_cons-Perm p b l₁ l₂ (keep-Perm p d))
keep-Perm p (Permᴰ.swap {a} {b} {a'} {b'} {l} e e') = rw (e, e') (keep_swap-Perm p a' b' l)
keep-Perm p (Permᴰ.trans d d') = Permᴰ.trans (keep-Perm p d) (keep-Perm p d')

best_bits-swap :
    (ip : Addr) (t u : Threshold) (ts : List Threshold)
    → best_bits ip (t ∷ u ∷ ts) ≡ best_bits ip (u ∷ t ∷ ts)
best_bits-swap ip t u ts = ground arith

best_bits-Perm :
    (ip : Addr) {ts us : List Threshold} → Permᴰ ts us → best_bits ip ts ≡ best_bits ip us
best_bits-Perm ip Permᴰ.nil = refl
best_bits-Perm ip (Permᴰ.cons e d) = rw (e, best_bits-Perm ip d) refl
best_bits-Perm ip (Permᴰ.swap {a} {b} {a'} {b'} {l} e e') = rw (e, e') (best_bits-swap ip b' a' l)
best_bits-Perm ip (Permᴰ.trans d d') = best_bits-Perm ip d ∙ best_bits-Perm ip d'

-- Among rules of at most `b` bits.
best_bits-le :
    (ip : Addr) (b : ℕ) (ts : List Threshold)
    → All (λ u. u.prefix.bits ≤ b) ts
    → best_bits ip ts ≤ b
best_bits-le ip b [] hs = omega arith
best_bits-le ip b (t ∷ ts) (h, hs) = ground (arith, h, best_bits-le ip b ts hs)

keep-none :
    (ip : Addr) (b c : ℕ) (ts : List Threshold)
    → c < b
    → All (λ u. u.prefix.bits ≤ c) ts
    → keep (is_best ip b) ts ≡ []
keep-none ip b c [] h hs = refl
keep-none ip b c (t ∷ ts) h (ht, hs) = ground (arith, h, ht, keep-none ip b c ts h hs)

lookup_from-some :
    (ip : Addr) (b : ℕ) (ts : List Threshold)
    → Descends ts
    → All (λ u. u.prefix.bits ≤ b) ts
    → lookup_from (some b) ip ts ≡ keep (is_best ip b) ts
unfolding lookup_from
lookup_from-some ip b [] d hs = refl
lookup_from-some ip b (t ∷ ts) (h, d) (ht, hs) = ground (
  arith,
  ht,
  lookup_from-some ip b ts d hs,
  λ (k : t.prefix.bits < b). keep-none ip b t.prefix.bits ts k h,
)

lookup_from-none :
    (ip : Addr) (ts : List Threshold) → Descends ts → lookup_from none ip ts ≡ longest ip ts
unfolding lookup_from
lookup_from-none ip [] d = refl
lookup_from-none ip (t ∷ ts) (h, d) = ground (
  arith,
  lookup_from-none ip ts d,
  lookup_from-some ip t.prefix.bits ts d h,
  best_bits-le ip t.prefix.bits ts h,
)

-- However the rules are configured, a host finds exactly those whose prefix holds its address and is
-- as long as any that does, in some order; and none if no prefix holds it.
pub lookup-new_catalog :
    (ip : Addr) (ts : List Threshold) → Permᴰ (lookup ip (new_catalog ts)) (longest ip ts)
unfolding lookup
lookup-new_catalog ip ts =
    rw
      (
        lookup_from-none ip (new_catalog ts) (new_catalog-Descends ts),
        best_bits-Perm ip (new_catalog-Perm ts),
      )
      (keep-Perm (is_best ip (best_bits ip ts)) (new_catalog-Perm ts))
