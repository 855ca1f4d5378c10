-- ===== src/Registry/TxQueue/Choice.antt =====
-- emcyphal/src/registry/tx_queue.rs, `first_queue_id`: which list is served.
use emcyphal.Common.{
  some_unique, ◌<◌, ◌≡◌, refl, sym, ap, ◌∙◌, true, false, ◌||◌, none, some, if◌then◌else◌, arith,
  inl, inr, Option-cases,
}
use emcyphal.Core.Priority.{Priority, le}
use emcyphal.Core.PrioritySet.{PrioritySet, contains, first, union}
use emcyphal.Core.PrioritySet.Laws.{first-some, first-none}
use emcyphal.Core.PrioritySet.Algebra.{contains-union, contains-none}
use emcyphal.Registry.TxQueue.{QueueType, started, finished, first_queue_id}

-- The choice among the priorities with a started and with a finished entry.
pub first_queue_id-none :
    (a b : PrioritySet)
    → union a b < 256
    → first_queue_id a b ≡ none
    → (q : Priority) → (contains a q ≡ false) × (contains b q ≡ false)
unfolding first_queue_id
first_queue_id-none a b small h q = elim (Option-cases (first (union a b))) [
  | inl failed ↦
      let z = first-none (union a b) small failed in
      let c = ap (λ t. contains t q) z in ground (arith, c, contains-none q, contains-union a b q)
  | inr (p, found) ↦ ground (arith, found)
]

pub first_queue_id-some :
    (a b : PrioritySet) (p : Priority) (type : QueueType)
    → union a b < 256
    → first_queue_id a b ≡ some (p, type)
    → ((contains a p || contains b p) ≡ true)
      × (type ≡ (if contains a p then started else finished))
      × ((q : Priority) → (contains a q || contains b q) ≡ true → le p q ≡ true)
unfolding first_queue_id
first_queue_id-some a b p type small h = elim (Option-cases (first (union a b))) [
  | inl failed ↦ ground (arith, failed)
  | inr (r, found) ↦
      let t : QueueType = if contains a r then started else finished in
      let e : some (r, t) ≡ some (p, type) =
        sym (
          ap
            (λ o. elim o [
              | none ↦ none
              | some x ↦ some (x, if contains a x then started else finished)
            ])
            found)
        ∙ h in
      let pair = some_unique refl e in
      let same : r ≡ p = ap (λ x. x.0) pair in
      let found' = found ∙ ap some same in
      let member = (first-some (union a b) p p small found').0 in
      (
        sym (contains-union a b p) ∙ member,
        sym (ap (λ x. x.1) pair) ∙ ap (λ x. if contains a x then started else finished) same,
        λ q held. (first-some (union a b) p q small found').1 (contains-union a b q ∙ held),
      )
]
