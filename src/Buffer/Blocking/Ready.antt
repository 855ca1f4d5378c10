-- ===== src/Buffer/Blocking/Ready.antt =====
-- emcyphal/src/buffer/tx_msg/blocking.rs: what a `Blocking` buffer with a pending transfer gives for
-- its priority.
use emcyphal.Common.{
  ◌≡◌, refl, sym, ap, ◌∙◌, inl, inr, true, not, some, arith, Option-cases, some_unique,
}
use mathlib.Core.Path.{subst}
use emcyphal.Core.Priority.{Priority}
use emcyphal.Core.PrioritySet.{new_eq, first}
use emcyphal.Core.PrioritySet.Algebra.{contains-new_eq}
use emcyphal.External.{Platform}
use emcyphal.Frame.Mtu.{Mtu}
use emcyphal.Scatter.Live.{fetch-Yields}
use emcyphal.Buffer.Ready.{Gives, first-only, fetched-Sound}
use emcyphal.Buffer.Types.{is_none}
use emcyphal.Buffer.Blocking.{Inner, pop_readiness, try_pop, release, frame_from}
use emcyphal.Buffer.Blocking.Laws.{IsValid, masked, live_of, try_pop_blocking}

module _ (p : Platform) where
  at_level :
      (s : Inner p) (mtu : Mtu)
      → IsValid p s
      → not (is_none s.pending_transfer) ≡ true
      → Gives (IsValid p) s.priority mtu (try_pop p s (new_eq s.priority) mtu)
  unfolding try_pop
  at_level s mtu v h = elim (Option-cases s.pending_transfer) [
    | inl empty ↦ absurd (ground (arith, h))
    | inr (entry, held) ↦
        let mask = new_eq s.priority in
        let y = fetch-Yields entry.scatter s.buffer mtu (live_of p s entry held v) in
        let after = release p s (record entry { scatter = y.after }) in
        let frame = frame_from p s entry y.frame in
        let e : try_pop p s mask mtu ≡ some (after, some frame) =
          ground (arith, masked p s mask, y.eq, contains-new_eq s.priority) in
        let r = try_pop_blocking p s mask mtu v in
        record {
          after = after;
          frame = frame;
          eq = e;
          valid = subst (IsValid p) (ap (λ x. x.0) (some_unique refl (sym (r.2) ∙ e))) (r.3);
          level = refl;
          sound = fetched-Sound entry.scatter s.buffer mtu frame y refl;
        }
  ]

  pub try_pop-Gives :
      (s : Inner p) (q : Priority) (mtu : Mtu)
      → IsValid p s
      → first (pop_readiness p s) ≡ some q
      → Gives (IsValid p) q mtu (try_pop p s (new_eq q) mtu)
  unfolding pop_readiness
  try_pop-Gives s q mtu v h =
      let (busy, level) = first-only (not (is_none s.pending_transfer)) s.priority q h in
      subst (λ r. Gives (IsValid p) r mtu (try_pop p s (new_eq r) mtu)) level
        (at_level s mtu v busy)
