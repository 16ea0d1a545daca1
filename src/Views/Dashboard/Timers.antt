-- ===== src/Views/Dashboard/Timers.antt =====
-- The pending timers of the live page (web/src/views/DashboardView.vue).
use mitigador.Base.{
  ℕ, suc, ◌<◌, String, Bool, false, not, ◌||◌, ◌&&◌, none, some, List, [], ◌∷◌, ◌++◌, ◌≡◌, refl,
  ◌∙◌, arith, any, All, All-append, eqb, ◌==◌, eq_iff,
}
use mitigador.Views.Dashboard.{
  Timer, Callback, unflash, unfade, has, add, remove, clear_timeout, find_timer,
}

-- The callback ends the fading of a row.
abbrev pub ends : String → Callback → Bool
ends id (unfade j) = j == id
ends id (unflash _) = false

abbrev pub has_timer : String → List Timer → Bool
has_timer id timers = any (λ t. ends id t.1) timers

abbrev pub uses : ℕ → List Timer → Bool
uses t timers = any (λ u. eqb u.0 t) timers

abbrev pub HasDistinctHandles : List Timer → Type 0
HasDistinctHandles [] = Unit
HasDistinctHandles (t ∷ timers) = (uses t.0 timers ≡ false) × HasDistinctHandles timers

pub any-append {ℓ} :
    {A : Type ℓ} (p : A → Bool) (xs : List A) (y : A) → any p (xs ++ y ∷ []) ≡ any p xs || p y
any-append p [] y = ground arith
any-append p (x ∷ xs) y = ground (arith, any-append p xs y)

pub has-add : (id j : String) (set : List String) → has (add id set) j ≡ has set j || (id == j)
unfolding add
has-add id j set = ground (arith, any-append (λ k. k == j) set id, eq_iff id j)

pub has-remove :
    (id j : String) (set : List String) → has (remove id set) j ≡ has set j && not (id == j)
unfolding remove
has-remove id j [] = refl
has-remove id j (k ∷ set) =
    ground (arith, has-remove id j set, eq_iff k id, eq_iff k j, eq_iff id j)

pub uses-below : (n : ℕ) (timers : List Timer) → All (λ t. t.0 < n) timers → uses n timers ≡ false
uses-below n [] h = refl
uses-below n (t ∷ timers) h = ground (arith, uses-below n timers h.1)

pub below-suc :
    (n : ℕ) (timers : List Timer) → All (λ t. t.0 < n) timers → All (λ t. t.0 < suc n) timers
below-suc n [] h = tt
below-suc n (t ∷ timers) h = (omega arith, below-suc n timers h.1)

pub distinct-append :
    (timers : List Timer) (n : ℕ) (f : Callback)
    → All (λ t. t.0 < n) timers
    → HasDistinctHandles timers
    → HasDistinctHandles (timers ++ (n, f) ∷ [])
distinct-append [] n f b d = (refl, tt)
distinct-append (t ∷ timers) n f (b, bs) (fresh, d) =
    (any-append (λ u. eqb u.0 t.0) timers (n, f) ∙ ground arith, distinct-append timers n f bs d)

pub clear-unused :
    (t : ℕ) (timers : List Timer) → uses t timers ≡ false → clear_timeout t timers ≡ timers
unfolding clear_timeout
clear-unused t [] h = refl
clear-unused t (u ∷ timers) h = ground (arith, clear-unused t timers)

pub has_timer-clear :
    (t : ℕ) (id : String) (timers : List Timer) {f : Callback}
    → HasDistinctHandles timers
    → find_timer t timers ≡ some f
    → has_timer id timers ≡ ends id f || has_timer id (clear_timeout t timers)
unfolding find_timer clear_timeout
has_timer-clear t id [] d h = cc
has_timer-clear t id ((u, g) ∷ timers) {f} (fresh, d) h =
    ground (arith, has_timer-clear t id timers {f = f} d, clear-unused t timers)

pub below-clear :
    (t n : ℕ) (timers : List Timer)
    → All (λ u. u.0 < n) timers
    → All (λ u. u.0 < n) (clear_timeout t timers)
unfolding clear_timeout
below-clear t n [] h = tt
below-clear t n (u ∷ timers) h = ground (arith, below-clear t n timers h.1)

pub uses-clear :
    (t k : ℕ) (timers : List Timer)
    → uses k timers ≡ false
    → uses k (clear_timeout t timers) ≡ false
unfolding clear_timeout
uses-clear t k [] h = refl
uses-clear t k (u ∷ timers) h = ground (arith, uses-clear t k timers)

pub distinct-clear :
    (t : ℕ) (timers : List Timer)
    → HasDistinctHandles timers
    → HasDistinctHandles (clear_timeout t timers)
unfolding clear_timeout
distinct-clear t [] h = tt
distinct-clear t (u ∷ timers) h =
    ground (arith, distinct-clear t timers h.1, uses-clear t u.0 timers h.0)

pub find_timer-none :
    (t : ℕ) (timers : List Timer) → find_timer t timers ≡ none → uses t timers ≡ false
unfolding find_timer
find_timer-none t [] h = refl
find_timer-none t (u ∷ timers) h = ground (arith, find_timer-none t timers)

pub below-append :
    (timers : List Timer) (n : ℕ) (f : Callback)
    → All (λ t. t.0 < n) timers
    → All (λ t. t.0 < suc n) (timers ++ (n, f) ∷ [])
below-append timers n f h =
    All-append (λ t. t.0 < suc n) timers ((n, f) ∷ []) (below-suc n timers h) (omega arith, tt)
