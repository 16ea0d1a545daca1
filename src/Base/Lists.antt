-- ===== src/Base/Lists.antt =====
-- Lists measured and indexed by native numbers, and predicates over their elements.
use Prim.Native.Nat.{ℕ, zero, suc, ◌+◌, ◌≤◌, ◌<◌}
use mathlib.Core.Logic.{◌≢◌}
use mathlib.Core.Path.{◌≡◌, refl, ap}
use mathlib.Core.Bool.{Bool, false, ◌||◌}
use mathlib.Core.List.{List, [], ◌∷◌, ◌++◌, map, reverse, reverse-cons}
use mathlib.Core.Option.{Option, none, some}
use native.Mathlib.Omega.{arith}
use mitigador.Base.Tests.{if◌then◌else◌}

module _ {ℓ} {A : Type ℓ} where
  abbrev pub length : List A → ℕ
  length [] = 0
  length (x ∷ xs) = suc (length xs)

  abbrev pub get_elem? : List A → ℕ → Option A
  get_elem? [] i = none
  get_elem? (x ∷ xs) zero = some x
  get_elem? (x ∷ xs) (suc i) = get_elem? xs i

  -- `xs.filter(p)`
  abbrev pub keep : (A → Bool) → List A → List A
  keep p [] = []
  keep p (x ∷ xs) = if p x then x ∷ keep p xs else keep p xs

  -- `xs.some(p)`
  abbrev pub any : (A → Bool) → List A → Bool
  any p [] = false
  any p (x ∷ xs) = p x || any p xs

  pub length-append : (xs ys : List A) → length (xs ++ ys) ≡ length xs + length ys
  length-append [] ys = omega arith
  length-append (x ∷ xs) ys = omega (arith, length-append xs ys)

  -- Every element satisfies the predicate.
  abbrev pub All {κ} : (A → Type κ) → List A → Type κ
  All P [] = Unit
  All P (x ∷ xs) = P x × All P xs

pub length-map {ℓ κ} :
    {A : Type ℓ} {B : Type κ} (f : A → B) (xs : List A) → length (map f xs) ≡ length xs
length-map f [] = refl
length-map f (x ∷ xs) = ap suc (length-map f xs)

module _ {ℓ} {A : Type ℓ} where
  pub All-append {κ} : (P : A → Type κ) (xs ys : List A) → All P xs → All P ys → All P (xs ++ ys)
  All-append P [] ys hx hy = hy
  All-append P (x ∷ xs) ys hx hy = (hx.0, All-append P xs ys hx.1 hy)

  pub keep-append : (p : A → Bool) (xs ys : List A) → keep p (xs ++ ys) ≡ keep p xs ++ keep p ys
  keep-append p [] ys = refl
  keep-append p (x ∷ xs) ys = ground (arith, keep-append p xs ys)

module _ {ℓ} {A : Type ℓ} where
  abbrev pub take : ℕ → List A → List A
  take zero xs = []
  take (suc n) [] = []
  take (suc n) (x ∷ xs) = x ∷ take n xs

  pub take-length : (xs : List A) → take (length xs) xs ≡ xs
  take-length [] = refl
  take-length (x ∷ xs) = ap (x ∷◌) (take-length xs)

  pub length-reverse : (xs : List A) → length (reverse xs) ≡ length xs
  length-reverse [] = refl
  length-reverse (x ∷ xs) =
      rw (reverse-cons x xs) (omega (arith, length-append (reverse xs) (x ∷ []), length-reverse xs))

-- `xs.map(f)` with the index, from `i` on.
abbrev pub map_from {ℓ κ} : {A : Type ℓ} {B : Type κ} → (A → ℕ → B) → ℕ → List A → List B
map_from f i [] = []
map_from f i (x ∷ xs) = f x i ∷ map_from f (suc i) xs

pub length-map_from {ℓ κ} :
    {A : Type ℓ} {B : Type κ} (f : A → ℕ → B) (i : ℕ) (xs : List A)
    → length (map_from f i xs) ≡ length xs
length-map_from f i [] = refl
length-map_from f i (x ∷ xs) = omega (arith, length-map_from f (suc i) xs)

module _ {ℓ} {A : Type ℓ} where
  abbrev pub set : List A → ℕ → A → List A
  set [] i y = []
  set (x ∷ xs) zero y = y ∷ xs
  set (x ∷ xs) (suc i) y = x ∷ set xs i y

  -- `make([]T, n)`, full of zero values.
  abbrev pub replicate : ℕ → A → List A
  replicate zero x = []
  replicate (suc n) x = x ∷ replicate n x

  abbrev pub get_or : List A → ℕ → A → A
  get_or [] i z = z
  get_or (x ∷ xs) zero z = x
  get_or (x ∷ xs) (suc i) z = get_or xs i z

  pub length-set : (xs : List A) (i : ℕ) (y : A) → length (set xs i y) ≡ length xs
  length-set [] i y = refl
  length-set (x ∷ xs) zero y = refl
  length-set (x ∷ xs) (suc i) y = ap suc (length-set xs i y)

  pub length-replicate : (n : ℕ) (x : A) → length (replicate n x) ≡ n
  length-replicate zero x = refl
  length-replicate (suc n) x = ap suc (length-replicate n x)

  pub get_elem?-eq-get_or :
      (xs : List A) (i : ℕ) (z : A) → i < length xs → get_elem? xs i ≡ some (get_or xs i z)
  get_elem?-eq-get_or [] i z h = absurd (omega (arith, h))
  get_elem?-eq-get_or (x ∷ xs) zero z h = refl
  get_elem?-eq-get_or (x ∷ xs) (suc i) z h = get_elem?-eq-get_or xs i z (omega (arith, h))

  pub get_or-set_self :
      (xs : List A) (i : ℕ) (y z : A) → i < length xs → get_or (set xs i y) i z ≡ y
  get_or-set_self [] i y z h = absurd (omega (arith, h))
  get_or-set_self (x ∷ xs) zero y z h = refl
  get_or-set_self (x ∷ xs) (suc i) y z h = get_or-set_self xs i y z (omega (arith, h))

  pub get_or-set_ne :
      (xs : List A) (i j : ℕ) (y z : A) → j ≢ i → get_or (set xs i y) j z ≡ get_or xs j z
  get_or-set_ne [] i j y z h = refl
  get_or-set_ne (x ∷ xs) zero zero y z h = absurd (h refl)
  get_or-set_ne (x ∷ xs) zero (suc j) y z h = refl
  get_or-set_ne (x ∷ xs) (suc i) zero y z h = refl
  get_or-set_ne (x ∷ xs) (suc i) (suc j) y z h = get_or-set_ne xs i j y z (λ e. h (ap suc e))

  pub take-take : (m n : ℕ) (xs : List A) → m ≤ n → take m (take n xs) ≡ take m xs
  take-take zero n xs h = refl
  take-take (suc m) zero xs h = absurd (omega (arith, h))
  take-take (suc m) (suc n) [] h = refl
  take-take (suc m) (suc n) (x ∷ xs) h = ap (x ∷◌) (take-take m n xs (omega (arith, h)))

pub get_or-replicate {ℓ} : {A : Type ℓ} (n i : ℕ) (x : A) → get_or (replicate n x) i x ≡ x
get_or-replicate zero i x = refl
get_or-replicate (suc n) zero x = refl
get_or-replicate (suc n) (suc i) x = get_or-replicate n i x

module _ {ℓ} {A : Type ℓ} where
  pub take_all : (m : ℕ) (h : List A) → length h ≤ m → take m h ≡ h
  take_all zero [] k = refl
  take_all zero (x ∷ h) k = absurd (omega (arith, k))
  take_all (suc m) [] k = refl
  take_all (suc m) (x ∷ h) k = ap (x ∷◌) (take_all m h (omega (arith, k)))
