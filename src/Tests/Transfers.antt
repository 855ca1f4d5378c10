-- ===== src/Tests/Transfers.antt =====
-- Transfers through `Scatter` and `Gather`.
use emcyphal.Common.{ℕ, ◌≡◌, refl, inl, ◌≢◌, List, [], ◌∷◌, false, arith, replicate}
use emcyphal.Core.Priority.{nominal}
use emcyphal.Format.Crc.{init_value, add, add_bytes}
use emcyphal.Frame.Mtu.{Mtu, classic, fd}
use emcyphal.Gather.{new_gather, idle, assembled, tid_match}
use emcyphal.Scatter
use emcyphal.Scatter.{fetch_frame_data}
use emcyphal.Scatter.Live.{Yields, fetch-Yields}
use emcyphal.Session.{exchange}
use emcyphal.Session.RoundTrip.{Delivers, exchange-Delivers}
use emcyphal.Tests.Clock.{ticks}

-- The payload of `test_minimum_double_frame`.
abbrev eight : List ℕ
eight = 0 ∷ 1 ∷ 2 ∷ 3 ∷ 4 ∷ 5 ∷ 6 ∷ 7 ∷ []

abbrev schedule : List (Mtu × ℕ)
schedule =
    (classic, 20)
    ∷ (classic, 21)
    ∷ (fd, 22)
    ∷ (classic, 23)
    ∷ (classic, 24)
    ∷ (classic, 25)
    ∷ (classic, 26)
    ∷ (classic, 27)
    ∷ (classic, 28)
    ∷ []

crc_eight : add_bytes init_value eight ≡ 0x178d
unfolding add
crc_eight = refl

exchange-Delivers_example : Delivers ticks nominal 27 10 eight (replicate 16 255) (
    exchange ticks 2000000 nominal eight
      (Scatter.new 27 8 (add_bytes init_value eight))
      new_gather
      (replicate 16 255)
      ((classic, 10) ∷ schedule))
unfolding tid_match
exchange-Delivers_example =
    exchange-Delivers ticks 2000000 nominal eight 27 8 10 (replicate 16 255) new_gather false
      classic schedule (omega arith) (omega arith) (omega arith) refl (inl idle_ne) (omega arith)
      (refl, (refl, (refl, (refl, (refl, (refl, (refl, (refl, (refl, tt)))))))))
  where
    idle_ne : idle ≢ assembled
    idle_ne e = cc

fetch-Yields_example :
    Yields
      (Scatter.new 27 8 0x178d)
      eight
      (fetch_frame_data (Scatter.new 27 8 0x178d) eight classic)
fetch-Yields_example =
    fetch-Yields (Scatter.new 27 8 0x178d) eight classic
      (record { inside = omega arith; unfinished = omega arith })
