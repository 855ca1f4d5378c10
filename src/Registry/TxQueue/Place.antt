-- ===== src/Registry/TxQueue/Place.antt =====
-- emcyphal/src/registry/tx_queue.rs: the list where an entry belongs, said of its buffer and its
-- started set alone.
use mathlib.Core.Path.{subst}
use emcyphal.Common.{
  some_unique, ◌≡◌, ◌⊎◌, refl, sym, ap, ◌∙◌, inl, inr, true, false, Option, none, some,
  if◌then◌else◌, Bool-cases, Option-cases, ℕ, arith,
}
use emcyphal.Core.Priority.{Priority}
use emcyphal.Core.PrioritySet.{contains, first}
use emcyphal.Registry.TxQueue.{Parts, QueueId, started, finished, Entry, Entries, target}

module _ (p : Parts) where
  -- An entry whose buffer has nothing to send is in no list. Another is in a list of the most urgent
  -- priority that is ready: the one of the started transfers if a transfer of that priority is in the
  -- started set, else the one of those that have yet to start.
  pub data Stands (entry : Entry p) : Option QueueId → Type 0 where
    idle : first (p.buffers.pop_readiness entry.buffer) ≡ none → Stands entry none
    under_way :
        (q : Priority)
        → first (p.buffers.pop_readiness entry.buffer) ≡ some q
        → contains entry.started_set q ≡ true
        → Stands entry (some (q, started))
    to_start :
        (q : Priority)
        → first (p.buffers.pop_readiness entry.buffer) ≡ some q
        → contains entry.started_set q ≡ false
        → Stands entry (some (q, finished))

  target-some :
      (entry : Entry p) (q : Priority)
      → first (p.buffers.pop_readiness entry.buffer) ≡ some q
      → target p entry ≡ some (q, if contains entry.started_set q then started else finished)
  target-some entry q found =
      ap
        (λ o. elim o [
          | none ↦ none
          | some x ↦ some (x, if contains entry.started_set x then started else finished)
        ])
        found

  pub target-Stands : (entry : Entry p) → Stands entry (target p entry)
  target-Stands entry = elim (Option-cases (first (p.buffers.pop_readiness entry.buffer))) [
    | inl nothing ↦
        subst (Stands entry)
          (sym (
            ap
              (λ o. elim o [
                | none ↦ none
                | some x ↦ some (x, if contains entry.started_set x then started else finished)
              ])
              nothing))
          (idle nothing)
    | inr (q, found) ↦
        let e = target-some entry q found in
        elim (Bool-cases (contains entry.started_set q)) [
          | inl yes' ↦
              subst (Stands entry)
                (sym (e ∙ ap (λ c. some (q, if c then started else finished)) yes'))
                (under_way q found yes')
          | inr no' ↦
              subst (Stands entry)
                (sym (e ∙ ap (λ c. some (q, if c then started else finished)) no'))
                (to_start q found no')
        ]
  ]

  -- The priority of the list is the most urgent one that is ready.
  pub Stands-first :
      {entry : Entry p} {mark : Option QueueId} (id : QueueId)
      → Stands entry mark
      → mark ≡ some id
      → first (p.buffers.pop_readiness entry.buffer) ≡ some (id.0)
  Stands-first id (idle e) h = absurd (ground arith)
  Stands-first id (under_way q e under) h = e ∙ ap some (ap (λ x. x.0) (some_unique refl h))
  Stands-first id (to_start q e fresh) h = e ∙ ap some (ap (λ x. x.0) (some_unique refl h))

  -- Every entry in a list stands where its buffer's readiness and its started set put it.
  abbrev pub InPlace : Entries p → Type 0
  InPlace entries =
      (k : ℕ) → ((entries k).queue_mark ≡ none) ⊎ Stands (entries k) (entries k).queue_mark

  -- The mark that an entry has does not bear on where it belongs.
  pub Stands-marked :
      {entry : Entry p} {mark : Option QueueId} (other : Option QueueId)
      → Stands entry mark
      → Stands (record entry { queue_mark = other }) mark
  Stands-marked other (idle e) = idle e
  Stands-marked other (under_way q e under) = under_way q e under
  Stands-marked other (to_start q e fresh) = to_start q e fresh
