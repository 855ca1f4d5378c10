-- ===== src/Utils/PriorityArray.antt =====
-- emcyphal/src/utils.rs, `PriorityArray`: an array with an element for each priority. Indexing by a
-- priority is always in range, so the array is the function from priorities to its elements.
use emcyphal.Common.{if◌then◌else◌}
use emcyphal.Core.Priority.{Priority, eq}

abbrev pub PriorityArray {ℓ} : Type ℓ → Type ℓ
PriorityArray T = Priority → T

-- An assignment through `index_mut`.
abbrev pub put {ℓ} : {T : Type ℓ} → PriorityArray T → Priority → T → PriorityArray T
put a p x q = if eq p q then x else a q
