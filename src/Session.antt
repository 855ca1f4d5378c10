-- ===== src/Session.antt =====
-- A sender and a receiver of one session: `Scatter` cuts a transfer into frames and `Gather` takes
-- them in, in order and with none lost, as emcyphal/src/buffer composes the two.
mod Loop
pub mod RoundTrip
use emcyphal.Common.{ℕ, ◌≡◌, true, List, [], ◌∷◌, Option, none, some}
use emcyphal.Core.Priority.{Priority}
use emcyphal.Frame.{deref}
use emcyphal.Frame.Mtu.{Mtu}
use emcyphal.Scatter.{Scatter, fetch_frame_data}
use emcyphal.Gather.{Gather, Outcome, push_frame}
use emcyphal.Time.{Clock}

-- One frame is fetched for each MTU and instant of reception of the list, until there is no frame
-- left or the receiver has a transfer.
module _ (c : Clock) where
  open c use {Instant, Duration, saturating_add, le}

  -- The instants of a schedule lie within the timeout of a transfer that began at `start`.
  abbrev pub InTime : Duration → Instant → List (Mtu × Instant) → Type 0
  InTime timeout start [] = Unit {0}
  InTime timeout start ((mtu, now) ∷ rest) =
      (le now (saturating_add start timeout) ≡ true) × InTime timeout start rest

  pub exchange :
      Duration
      → Priority
      → List ℕ
      → Scatter
      → Gather Instant
      → List ℕ
      → List (Mtu × Instant)
      → Option (Outcome Instant)
  exchange timeout priority payload s g buffer [] = some (g, buffer, none)
  exchange timeout priority payload s g buffer ((mtu, now) ∷ rest) =
      elim (fetch_frame_data s payload mtu) [
        | none ↦ none
        | some (s', none) ↦ some (g, buffer, none)
        | some (s', some frame) ↦
            elim (push_frame c timeout buffer g priority (deref frame) now mtu) [
              | none ↦ none
              | some (g', buffer', none) ↦ exchange timeout priority payload s' g' buffer' rest
              | some (g', buffer', some transfer) ↦ some (g', buffer', some transfer)
            ]
      ]
