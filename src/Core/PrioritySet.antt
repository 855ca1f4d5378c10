-- ===== src/Core/PrioritySet.antt =====
-- emcyphal-core/src/lib.rs, `PrioritySet`: a set of priorities as the bits of one byte.
pub mod Laws
pub mod Algebra
use emcyphal.Common.{
  ℕ, zero, suc, ◌+◌, ◌-◌, ◌*◌, ◌/◌, ◌%◌, ◌^◌, bit_and, bit_or, Bool, true, false, not, Option, none,
  some, List, [], ◌∷◌, ltb, ◌==◌, if◌then◌else◌,
}
use emcyphal.Core.Priority.{Priority, into_u8, max_priority, try_from_u8}

-- The `u8` in the tuple struct.
abbrev pub PrioritySet : Type 0
PrioritySet = ℕ

abbrev pub none_set : PrioritySet
none_set = 0

abbrev pub all_set : PrioritySet
all_set = 255

-- `!x` of a byte.
abbrev pub complement : PrioritySet → PrioritySet
complement s = 255 - s

-- `<<` of a byte drops what leaves it, `>>` what falls out below.
abbrev pub new_eq : Priority → PrioritySet
new_eq p = 1 * 2 ^ into_u8 p % 256

abbrev pub new_ge : Priority → PrioritySet
new_ge p = 255 * 2 ^ into_u8 p % 256

abbrev pub new_le : Priority → PrioritySet
new_le p = 255 / 2 ^ (into_u8 max_priority - into_u8 p)

abbrev pub new_gt : Priority → PrioritySet
new_gt p = complement (new_le p)

abbrev pub new_lt : Priority → PrioritySet
new_lt p = complement (new_ge p)

unfoldable pub contains : PrioritySet → Priority → Bool
contains s p = not (bit_and (s / 2 ^ into_u8 p) 0x1 == 0)

unfoldable pub insert : PrioritySet → Priority → PrioritySet
insert s p = bit_or s (new_eq p)

unfoldable pub remove : PrioritySet → Priority → PrioritySet
remove s p = bit_and s (complement (new_eq p))

-- `u8::trailing_zeros` and `u8::leading_zeros`, at most `n` of them.
abbrev pub trailing_zeros : ℕ → ℕ → ℕ
trailing_zeros zero s = 0
trailing_zeros (suc n) s = elim (s % 2 == 0) [ true ↦ suc (trailing_zeros n (s / 2)) | false ↦ 0 ]

abbrev pub leading_zeros : ℕ → ℕ → ℕ
leading_zeros zero s = 0
leading_zeros (suc n) s = elim (s / 2 ^ n % 2 == 0) [ true ↦ suc (leading_zeros n s) | false ↦ 0 ]

unfoldable pub first : PrioritySet → Option Priority
first s = try_from_u8 (trailing_zeros 8 s)

-- `wrapping_sub(1)` of 0 is 255, which is no priority.
unfoldable pub last : PrioritySet → Option Priority
last s = let n = 8 - leading_zeros 8 s in try_from_u8 ((n + 255) % 256)

abbrev pub is_empty : PrioritySet → Bool
is_empty s = s == none_set

unfoldable pub intersection : PrioritySet → PrioritySet → PrioritySet
intersection s t = bit_and s t

unfoldable pub union : PrioritySet → PrioritySet → PrioritySet
union s t = bit_or s t

-- `PrioritySetIterator::next`: the lowest member leaves the residual set.
unfoldable pub next : PrioritySet → Option Priority × PrioritySet
unfolding first remove
next s = elim (first s) [ some p ↦ (some p, remove s p) | none ↦ (none, s) ]

-- `for p in set`: calls of `next` until it returns none, at most `fuel` of them.
unfoldable pub drain : ℕ → PrioritySet → List Priority
unfolding next
drain zero s = []
drain (suc fuel) s = let (p, rest) = next s in elim p [ none ↦ [] | some q ↦ q ∷ drain fuel rest ]
