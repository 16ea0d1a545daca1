-- ===== src/Browser/Polling.antt =====
-- A page with at most two pollers: its running intervals are the ones that its fields hold.
use mitigador.Base.{
  ℕ, suc, ◌<◌, true, false, not, ◌||◌, ◌&&◌, Option, none, some, List, [], ◌∷◌, ◌++◌, keep, any,
  eqb, ◌≡◌, refl, arith,
}
use mitigador.Browser.{
  Intervals, set_interval, clear_interval, runs, start, stop, holds, no_intervals,
}

module _ {ℓ} {K : Type ℓ} where
  pub record Owns (i : Intervals K) (a b : Option ℕ) : Type ℓ where
    pub owned : (t : ℕ) → runs t i ≡ holds t a || holds t b
    pub below : (t : ℕ) → runs t i ≡ true → t < i.next
    pub apart : (t : ℕ) → holds t a ≡ true → holds t b ≡ false

  runs-set_interval :
      (t : ℕ) (k : K) (i : Intervals K) → runs t (set_interval k i) ≡ runs t i || eqb i.next t
  unfolding runs set_interval
  runs-set_interval t k i = in_list i.running
    where
      in_list :
          (l : List (ℕ × K))
          → any (λ u. eqb u.0 t) (l ++ (i.next, k) ∷ []) ≡ any (λ u. eqb u.0 t) l || eqb i.next t
      in_list [] = ground arith
      in_list (u ∷ l) = ground (arith, in_list l)

  runs-clear_interval :
      (t u : ℕ) (i : Intervals K) → runs t (clear_interval u i) ≡ runs t i && not (eqb u t)
  unfolding runs clear_interval
  runs-clear_interval t u i = in_list i.running
    where
      in_list :
          (l : List (ℕ × K))
          → any (λ x. eqb x.0 t) (keep (λ x. not (eqb x.0 u)) l)
            ≡ any (λ x. eqb x.0 t) l && not (eqb u t)
      in_list [] = refl
      in_list (x ∷ l) = ground (arith, in_list l)

  pub Owns-flip : {i : Intervals K} {a b : Option ℕ} → Owns i a b → Owns i b a
  Owns-flip h = record {
    owned = λ t. ground (arith, h.owned t);
    below = h.below;
    apart = λ t e. ground (arith, h.apart t);
  }

  -- Starting a poller keeps the books, and starting it again changes nothing.
  pub start-Owns :
      (k : K) (i : Intervals K) (a b : Option ℕ)
      → Owns i a b
      → Owns (start k (a, i)).1 (start k (a, i)).0 b
  unfolding start
  start-Owns k i (some u) b h = h
  start-Owns k i none b h = record {
    owned = λ t. ground (arith, h.owned t, runs-set_interval t k i);
    below = λ t e. below_next t (ground (arith, runs-set_interval t k i, e));
    apart = λ t e. ground (arith, h.owned t, h.below t);
  }
    where
      below_next : (t : ℕ) → (runs t i || eqb i.next t) ≡ true → t < suc i.next
      below_next t e = ground (arith, h.below t)

  -- Stopping it ends its interval and no other.
  pub stop-Owns :
      (i : Intervals K) (a b : Option ℕ) → Owns i a b → Owns (stop (a, i)).1 (stop (a, i)).0 b
  unfolding stop
  stop-Owns i none b h = h
  stop-Owns i (some u) b h = record {
    owned = λ t. ground (arith, h.owned t, h.apart t, runs-clear_interval t u i);
    below = λ t e. h.below t (ground (arith, runs-clear_interval t u i, e));
    apart = λ t e. cc;
  }

  -- A page whose fields hold nothing has no interval running.
  pub none-running : (i : Intervals K) → Owns i none none → (t : ℕ) → runs t i ≡ false
  none-running i h t = h.owned t

  pub no_intervals-Owns : Owns no_intervals none none
  unfolding runs
  no_intervals-Owns = record { owned = λ t. refl; below = λ t e. cc; apart = λ t e. cc }

  pub stop-none : (a : Option ℕ) (i : Intervals K) → (stop (a, i)).0 ≡ none
  unfolding stop
  stop-none none i = refl
  stop-none (some t) i = refl
