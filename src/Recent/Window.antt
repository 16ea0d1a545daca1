-- ===== src/Recent/Window.antt =====
-- The records that a snapshot of the buffer reads, round its ring (internal/flow/recent.go).
use mitigador.Base.{
  ℕ, zero, suc, ◌+◌, ◌≤◌, ◌<◌, some, List, [], ◌∷◌, length, set, get_or, take, ◌≡◌, ◌⊎◌, ◌≢◌, inl,
  inr, refl, ap, arith, length-set, get_elem?-eq-get_or, get_or-set_self, get_or-set_ne,
}
use mitigador.Recent.{before, snapshot_loop}

module _ {A : Type 0} (blank : A) where
  -- The records from a position backwards, round the ring.
  abbrev pub window : List A → ℕ → ℕ → List A
  window ring pos zero = []
  window ring pos (suc n) = get_or ring pos blank ∷ window ring (before ring pos) n

  pub snapshot_loop-eq-window :
      (ring : List A) (pos n : ℕ)
      → pos < length ring
      → snapshot_loop ring pos n ≡ some (window ring pos n)
  unfolding snapshot_loop
  snapshot_loop-eq-window ring pos zero h = refl
  snapshot_loop-eq-window ring pos (suc n) h =
      rw
        (
          snapshot_loop,
          get_elem?-eq-get_or ring pos blank h,
          snapshot_loop-eq-window ring (before ring pos) n (ground (arith, h)),
        )
        refl

  pub take-window :
      (ring : List A) (pos m n : ℕ) → m ≤ n → take m (window ring pos n) ≡ window ring pos m
  take-window ring pos zero n h = refl
  take-window ring pos (suc m) zero h = absurd (omega (arith, h))
  take-window ring pos (suc m) (suc n) h =
      ap (get_or ring pos blank ∷◌) (take-window ring (before ring pos) m n (omega (arith, h)))

  -- From `pos` on, the position `i` is `d` steps back, round a ring of `c` positions.
  abbrev Ahead : ℕ → ℕ → ℕ → ℕ → Type 0
  Ahead c pos d i = (pos + d ≡ i) ⊎ (pos + d ≡ i + c)

  before-Ahead :
      (ring : List A) (pos d i : ℕ)
      → d < length ring
      → Ahead (length ring) pos d i
      → Ahead (length ring) (before ring pos) (suc d) i
  before-Ahead ring zero d i h (inl e) = inr (omega (arith, h, e))
  before-Ahead ring zero d i h (inr e) = absurd (omega (arith, h, e))
  before-Ahead ring (suc pos) d i h (inl e) = inl (ground (arith, e))
  before-Ahead ring (suc pos) d i h (inr e) = inr (ground (arith, e))

  Ahead-ne :
      (ring : List A) (pos d i : ℕ)
      → d < length ring
      → 1 ≤ d
      → Ahead (length ring) pos d i
      → pos ≢ i
  Ahead-ne ring pos d i h hd (inl e) q = absurd (omega (arith, h, hd, e, q))
  Ahead-ne ring pos d i h hd (inr e) q = absurd (omega (arith, h, hd, e, q))

  -- What is written at a position is not read within fewer steps than the ring has positions.
  window-set :
      (ring : List A) (i : ℕ) (r : A) (pos d n : ℕ)
      → Ahead (length ring) pos d i
      → 1 ≤ d
      → d + n ≤ length ring
      → window (set ring i r) pos n ≡ window ring pos n
  window-set ring i r pos d zero away hd hn = refl
  window-set ring i r pos d (suc n) away hd hn =
      rw
        (
          get_or-set_ne ring i pos r blank (Ahead-ne ring pos d i (omega (arith, hn)) hd away),
          length-set ring i r,
          window-set ring i r (before ring pos) (suc d) n
              (before-Ahead ring pos d i (omega (arith, hn)) away) (omega arith)
              (omega (arith, hn)),
        )
        refl

  -- The window after a push, one step longer.
  pub window-push :
      (ring : List A) (head : ℕ) (r : A) (n : ℕ)
      → head < length ring
      → n < length ring
      → window (set ring head r) head (suc n) ≡ r ∷ window ring (before ring head) n
  window-push ring head r n hh hn =
      rw
        (
          get_or-set_self ring head r blank hh,
          length-set ring head r,
          window-set ring head r (before ring head) 1 n
              (before-Ahead ring head 0 head (omega (arith, hh)) (inl (omega arith))) (omega arith)
              (omega (arith, hn)),
        )
        refl
