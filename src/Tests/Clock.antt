-- ===== src/Tests/Clock.antt =====
-- A clock of 64-bit ticks.
use emcyphal.Common.{ℕ, ◌+◌, ◌-◌, ◌^◌, min, leb, ◌==◌}
use emcyphal.Time.{Clock}

abbrev pub last_tick : ℕ
last_tick = 2 ^ 64 - 1

abbrev pub ticks : Clock
ticks = record {
  Instant = ℕ;
  Duration = ℕ;
  min_instant = 0;
  saturating_add = λ t d. min (t + d) last_tick;
  le = leb;
  eq = ◌==◌;
}
