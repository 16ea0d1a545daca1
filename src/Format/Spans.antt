-- ===== src/Format/Spans.antt =====
-- What the shown times say (the formatters of web/src/views).
use mitigador.Base.{ℕ, ◌+◌, ◌-◌, ◌*◌, ◌/◌, ◌≤◌, ◌<◌, String, ◌∷◌, ◌≡◌, arith, if◌then◌else◌, ◌==◌}
use mitigador.Format.{num, text, Label}
use mitigador.Format.Duration.{seconds_between, format_seconds, format_duration}

-- The seconds in the unit that follows a number.
abbrev unit_seconds : String → ℕ
unit_seconds unit =
    if unit == "h " then 3600 else if unit == "m " then 60 else if unit == "m" then 60 else 1

-- The seconds that a text says, the sum of its numbers.
abbrev said : Label → ℕ
said (num n ∷ text unit ∷ rest) = n * unit_seconds unit + said rest
said _ = 0

-- The second number of a text, 0 if it has one number.
abbrev minor : Label → ℕ
minor (num _ ∷ text _ ∷ num n ∷ _) = n
minor _ = 0

-- A duration is shown in seconds below an hour, and to the minute above: the text says at most the
-- whole seconds that have passed and falls short of them by less than a minute, by nothing below an
-- hour; its second number is always below 60.
said-format_duration :
    (now started_at : ℕ)
    → started_at ≤ now
    → let secs = (now - started_at) / 1000 in
      let shown = format_duration now started_at in
      (said shown ≤ secs)
      × (secs < said shown + 60)
      × (secs < 3600 → said shown ≡ secs)
      × (minor shown < 60)
unfolding format_duration seconds_between format_seconds
said-format_duration now started_at h = ground arith
