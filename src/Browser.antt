-- ===== src/Browser.antt =====
-- What the pages use of the browser: `setInterval` and `clearInterval`. The running intervals are
-- kept with what each does; handles are given out in order.
pub mod Polling
use mitigador.Base.{
  ℕ, suc, Bool, true, false, not, Option, none, some, List, [], ◌∷◌, ◌++◌, keep, any, eqb, ◌≡◌,
}

pub record Intervals {ℓ} (K : Type ℓ) : Type ℓ where
  pub running : List (ℕ × K)
  pub next : ℕ

module _ {ℓ} {K : Type ℓ} where
  abbrev pub no_intervals : Intervals K
  no_intervals = record { running = []; next = 1 }

  unfoldable pub set_interval : K → Intervals K → Intervals K
  set_interval k i = record { running = i.running ++ (i.next, k) ∷ []; next = suc i.next }

  unfoldable pub clear_interval : ℕ → Intervals K → Intervals K
  clear_interval t i = record i { running = keep (λ u. not (eqb u.0 t)) i.running }

  -- An interval of that handle is running.
  unfoldable pub runs : ℕ → Intervals K → Bool
  runs t i = any (λ u. eqb u.0 t) i.running

  -- `if (field !== null) return; field = setInterval(…)`
  unfoldable pub start : K → Option ℕ × Intervals K → Option ℕ × Intervals K
  unfolding set_interval
  start k (none, i) = (some i.next, set_interval k i)
  start k (some t, i) = (some t, i)

  -- `if (field !== null) { clearInterval(field); field = null; }`
  unfoldable pub stop : Option ℕ × Intervals K → Option ℕ × Intervals K
  unfolding clear_interval
  stop (none, i) = (none, i)
  stop (some t, i) = (none, clear_interval t i)

-- The field holds that handle.
abbrev pub holds : ℕ → Option ℕ → Bool
holds t none = false
holds t (some u) = eqb u t
