-- ===== src/Buffer/Signal/Ready.antt =====
-- emcyphal/src/buffer/tx_msg/signal.rs: what a `Signal` with something to send gives for its priority.
use emcyphal.Common.{◌≡◌, refl, inl, inr, true, not, none, some, arith, Option-cases}
use mathlib.Core.Path.{subst}
use emcyphal.Core.Priority.{Priority}
use emcyphal.Core.PrioritySet.{new_eq, first}
use emcyphal.Core.PrioritySet.Algebra.{contains-new_eq}
use emcyphal.External.{Platform, IsStack}
use emcyphal.Frame.Mtu.{Mtu}
use emcyphal.Buffer.Ready.{Gives, first-only}
use emcyphal.Buffer.Signal.{Inner, pop_readiness, try_pop, is_empty}
use emcyphal.Buffer.Signal.Slots.{IsValid, Slots-eq, Slots-promote}
use emcyphal.Buffer.Signal.Laws.{pop_entry-Pops}

module _ (p : Platform) where
  module _ (stack : IsStack p.vecs) where
    at_level :
        (s : Inner p) (mtu : Mtu)
        → IsValid p s
        → not (is_empty p s) ≡ true
        → Gives (IsValid p) s.priority mtu (try_pop p s (new_eq s.priority) mtu)
    unfolding try_pop
    at_level s mtu v h =
        let wanted = contains-new_eq s.priority in
        elim (Option-cases s.fragmented_transfer) [
          | inr (entry, held) ↦
              let r = pop_entry-Pops p stack s entry mtu held v in
              record {
                after = r.after;
                frame = r.frame;
                eq = ground (arith, r.eq, wanted);
                valid = r.valid;
                level = r.header;
                sound = r.sound;
              }
          | inl vacant ↦
              let v' =
                Slots-promote p s.buffers s.pending_transfer _ _
                  (Slots-eq p s.buffers vacant refl refl refl v) in
              elim (Option-cases s.pending_transfer) [
                | inr (entry, held) ↦
                    let promoted : Inner p = record s {
                      fragmented_transfer = s.pending_transfer;
                      pending_transfer = none;
                    } in
                    let r = pop_entry-Pops p stack promoted entry mtu held v' in
                    record {
                      after = r.after;
                      frame = r.frame;
                      eq = ground (arith, r.eq, wanted);
                      valid = r.valid;
                      level = r.header;
                      sound = r.sound;
                    }
                | inl empty ↦ absurd (ground (arith, h))
              ]
        ]

    pub try_pop-Gives :
        (s : Inner p) (q : Priority) (mtu : Mtu)
        → IsValid p s
        → first (pop_readiness p s) ≡ some q
        → Gives (IsValid p) q mtu (try_pop p s (new_eq q) mtu)
    unfolding pop_readiness
    try_pop-Gives s q mtu v h =
        let (busy, level) = first-only (not (is_empty p s)) s.priority q h in
        subst (λ r. Gives (IsValid p) r mtu (try_pop p s (new_eq r) mtu)) level
          (at_level s mtu v busy)
