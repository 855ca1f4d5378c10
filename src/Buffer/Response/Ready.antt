-- ===== src/Buffer/Response/Ready.antt =====
-- emcyphal/src/buffer/tx_resp/blocking.rs: what a buffer of responses gives for the most urgent
-- priority with a response.
use emcyphal.Common.{
  ◌<◌, ◌≡◌, refl, sym, ap, ◌∙◌, inl, inr, true, false, ◌&&◌, Option, none, some, arith,
  Option-cases, Bool, ℕ, leb, ◌==◌,
}
use emcyphal.Core.Priority.{Priority, into_u8}
use emcyphal.Core.Priority.Laws.{eq_sound}
use emcyphal.Core.PrioritySet.{PrioritySet, contains, new_eq, first, intersection}
use emcyphal.Core.PrioritySet.Laws.{first-some, first-none}
use emcyphal.Core.PrioritySet.Algebra.{
  contains-new_eq, contains-intersection, intersection-lt, contains-none,
}
use emcyphal.External.{Platform, IsStack}
use emcyphal.Frame.Mtu.{Mtu}
use emcyphal.Utils.PriorityMap.Laws.{is_some}
use emcyphal.Buffer.Ready.{Gives}
use emcyphal.Buffer.Response.{TransferEntry, Inner, pop_readiness, try_pop}
use emcyphal.Buffer.Response.Slots.{IsValid}
use emcyphal.Buffer.Response.Laws.{pop_at-Pops}

-- The most urgent priority of a set is also that of what the set has in common with it alone.
first-alone :
    (a : PrioritySet) (q : Priority)
    → a < 256
    → first a ≡ some q
    → first (intersection a (new_eq q)) ≡ some q
first-alone a q small h =
    let both = intersection a (new_eq q) in
    let bound = intersection-lt a (new_eq q) small in
    let held : contains both q ≡ true =
      contains-intersection a (new_eq q) q
      ∙ rw ((first-some a q q small h).0, contains-new_eq q) refl in
    elim (Option-cases (first both)) [
      | inl failed ↦
          let c = ap (λ s. contains s q) (first-none both bound failed) in
          absurd (ground (arith, held, c, contains-none q))
      | inr (r, found) ↦
          let member =
            sym (contains-intersection a (new_eq q) r) ∙ (first-some both r r bound found).0 in
          let upper = (first-some both r q bound found).1 held in
          let lower = (first-some a q r small h).1 (both_true _ _ member) in
          found ∙ ap some (eq_sound r q (same_level (into_u8 r) (into_u8 q) upper lower))
    ]
  where
    both_true : (x y : Bool) → (x && y) ≡ true → x ≡ true
    both_true true y e = refl
    both_true false y e = e

    same_level : (x y : ℕ) → leb x y ≡ true → leb y x ≡ true → (x == y) ≡ true
    same_level x y h k = ground arith

module _ (p : Platform) (stack : IsStack p.vecs) where
  some_of : (o : Option (TransferEntry p)) → is_some o ≡ true → (e : TransferEntry p) × (o ≡ some e)
  some_of none h = cc
  some_of (some e) h = (e, refl)

  pub try_pop-Gives :
      (s : Inner p) (q : Priority) (mtu : Mtu)
      → IsValid p s
      → first (pop_readiness p s) ≡ some q
      → Gives (IsValid p) q mtu (try_pop p s (new_eq q) mtu)
  unfolding try_pop
  try_pop-Gives s q mtu v h =
      let here = (first-some s.transfers.key_set q q v.map.small h).0 in
      let (entry, held) = some_of (s.transfers.values q) (sym (v.map.exact q) ∙ here) in
      let r = pop_at-Pops p stack s q entry mtu held v in
      record {
        after = r.after;
        frame = r.frame;
        eq = rw (first-alone s.transfers.key_set q v.map.small h, try_pop) r.eq;
        valid = r.valid;
        level = r.header;
        sound = r.sound;
      }
