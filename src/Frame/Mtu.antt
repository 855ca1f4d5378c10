-- ===== src/Frame/Mtu.antt =====
-- emcyphal-driver/src/frame.rs, `Mtu`: the largest number of bytes of a frame.
use emcyphal.Common.{ℕ, Option, none, some, ◌==◌, if◌then◌else◌}

pub data Mtu : Type 0 where
  classic fd : Mtu

abbrev pub to_usize : Mtu → ℕ
to_usize classic = 8
to_usize fd = 64

-- `none` is `IncorrectMtu`.
abbrev pub try_from : ℕ → Option Mtu
try_from value = if value == 8 then some classic else if value == 64 then some fd else none
