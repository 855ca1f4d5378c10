-- ===== src/Time.antt =====
-- What the stack uses of the time library that `emcyphal-driver/src/lib.rs` passes on: the library is
-- not in the repository, so its types and operations are parameters.
use emcyphal.Common.{◌≡◌, ◌↔◌, Bool, true}

pub record Clock : Type 1 where
  pub Instant : Type 0
  pub Duration : Type 0
  -- `Instant::MIN`.
  pub min_instant : Instant
  pub saturating_add : Instant → Duration → Instant
  -- The derived comparisons of instants.
  pub le : Instant → Instant → Bool
  pub eq : Instant → Instant → Bool

-- Documented of `Instant`: it is ordered, and adding a duration saturates rather than going back.
pub record IsOrdered (c : Clock) : Type 0 where
  pub eq_iff : (t u : c.Instant) → (c.eq t u ≡ true) ↔ (t ≡ u)
  pub le-saturating_add : (t : c.Instant) (d : c.Duration) → c.le t (c.saturating_add t d) ≡ true
