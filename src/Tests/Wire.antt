-- ===== src/Tests/Wire.antt =====
-- The theorems on the basic data types and the wire format at inputs that meet their hypotheses.
use emcyphal.Common.{◌≡◌, ◌≤◌, ◌<◌, refl, true, false, not, ◌&&◌, ◌||◌, arith}
use emcyphal.Core.Priority.{eq, le, fast, high, nominal, low, slow}
use emcyphal.Core.PrioritySet.{
  contains, insert, remove, first, last, drain, new_eq, new_ge, new_le, new_gt, new_lt,
}
use emcyphal.Core.PrioritySet.Laws.{
  contains-insert, contains-remove, first-some, last-some, drain_lem, members, range_sets,
}
use emcyphal.Format.Crc.{add_bytes, to_be_bytes}
use emcyphal.Format.Crc.Laws.{residue}
use emcyphal.Format.TailByte.{new, sot, eot, toggle, transfer_id}
use emcyphal.Format.TailByte.Laws.{new_fields}
use emcyphal.Frame.DataLength
use emcyphal.Frame.DataLength.{new_ceil, new_floor}
use emcyphal.Frame.DataLength.Laws.{IsValid, new_ceil_nearest, new_floor_nearest}

contains-insert_example :
    contains (insert 0b10100 high) nominal ≡ (eq high nominal || contains 0b10100 nominal)
contains-insert_example = contains-insert 0b10100 high nominal (omega arith)

contains-remove_example :
    contains (remove 0b10100 fast) nominal ≡ (not (eq fast nominal) && contains 0b10100 nominal)
contains-remove_example = contains-remove 0b10100 fast nominal (omega arith)

first-some_example :
    (contains 0b10100 fast ≡ true) × (contains 0b10100 nominal ≡ true → le fast nominal ≡ true)
unfolding first
first-some_example = first-some 0b10100 fast nominal (omega arith) refl

last-some_example :
    (contains 0b10100 nominal ≡ true) × (contains 0b10100 fast ≡ true → le fast nominal ≡ true)
unfolding last
last-some_example = last-some 0b10100 nominal fast (omega arith) refl

drain_lem_example : drain 9 0b10100 ≡ members 0b10100
drain_lem_example = drain_lem 0b10100 (omega arith)

range_sets_example :
    (contains (new_eq low) slow ≡ eq low slow)
    × (contains (new_ge low) slow ≡ le low slow)
    × (contains (new_le low) slow ≡ le slow low)
    × (contains (new_gt low) slow ≡ not (le slow low))
    × (contains (new_lt low) slow ≡ not (le low slow))
range_sets_example = range_sets low slow

residue_example : add_bytes 0x178d (to_be_bytes 0x178d) ≡ 0
residue_example = residue 0x178d (omega arith)

new_fields_example :
    (sot (new true false true 27) ≡ true)
    × (eot (new true false true 27) ≡ false)
    × (toggle (new true false true 27) ≡ true)
    × (transfer_id (new true false true 27) ≡ 27)
    × (new true false true 27 < 256)
new_fields_example = new_fields true false true 27 (omega arith)

new_ceil_nearest_example : IsValid 48 × (33 ≤ 48) × (IsValid 64 → 33 ≤ 64 → 48 ≤ 64)
unfolding new_ceil
new_ceil_nearest_example = new_ceil_nearest 33 64 48 refl

new_floor_nearest_example :
    IsValid (new_floor 33) × (new_floor 33 ≤ 33) × (IsValid 24 → 24 ≤ 33 → 24 ≤ new_floor 33)
new_floor_nearest_example = new_floor_nearest 33 24
