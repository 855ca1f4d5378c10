-- ===== src/Buffer/Response/Slots.antt =====
-- emcyphal/src/buffer/tx_resp/blocking.rs: the fields that hold indexes of buffers.
use emcyphal.Common.{
  ℕ, ◌+◌, ◌≤◌, ◌≡◌, ◌∙◌, inl, inr, List, [], ◌∷◌, ◌++◌, not, Option, none, some, arith, length,
  length-append, get_elem?, get_elem?_total, Bool-cases,
}
use emcyphal.Core.Priority.{
  Priority, eq, exceptional, immediate, fast, high, nominal, low, slow, optional,
}
use emcyphal.Core.PrioritySet.{contains, complement}
use emcyphal.Core.PrioritySet.Algebra.{contains-complement}
use emcyphal.External.{Platform}
use emcyphal.Scatter.Live.{IsLive}
use emcyphal.Utils.PriorityArray.{PriorityArray, put}
use emcyphal.Utils.PriorityMap
use emcyphal.Utils.PriorityMap.{PriorityMap}
use emcyphal.Utils.PriorityMap.Laws.{IsMap, is_some, insert-IsMap, remove-IsMap, assign-IsMap}
use emcyphal.Buffer.Owned.{Partition, count, count-append, length-Partition}
use emcyphal.Buffer.Response.{TransferEntry, Inner, buffer_count}

module _ (p : Platform) where
  abbrev pub index_of : Option (TransferEntry p) → List ℕ
  index_of none = []
  index_of (some entry) = entry.buffer_idx ∷ []

  abbrev pub slot : Option ℕ → List ℕ
  slot none = []
  slot (some idx) = idx ∷ []

  -- The indexes that the transfers of all priorities hold.
  unfoldable pub held : PriorityArray (Option (TransferEntry p)) → List ℕ
  held v =
      index_of (v exceptional)
      ++ (index_of (v immediate)
          ++ (index_of (v fast)
              ++ (index_of (v high)
                  ++ (index_of (v nominal)
                      ++ (index_of (v low) ++ (index_of (v slow) ++ index_of (v optional)))))))

  pub held-count :
      (k : ℕ) (v : PriorityArray (Option (TransferEntry p)))
      → count k (held v)
        ≡ count k (index_of (v exceptional))
          + count k (index_of (v immediate))
          + count k (index_of (v fast))
          + count k (index_of (v high))
          + count k (index_of (v nominal))
          + count k (index_of (v low))
          + count k (index_of (v slow))
          + count k (index_of (v optional))
  unfolding held
  held-count k v = omega (arith, count-append)

  -- Changing the value of one priority exchanges its index.
  pub held-put :
      (k : ℕ) (v : PriorityArray (Option (TransferEntry p))) (q : Priority)
      (o : Option (TransferEntry p))
      → count k (held (put v q o)) + count k (index_of (v q))
        ≡ count k (held v) + count k (index_of o)
  held-put k v exceptional o = omega (arith, held-count k v, held-count k (put v exceptional o))
  held-put k v immediate o = omega (arith, held-count k v, held-count k (put v immediate o))
  held-put k v fast o = omega (arith, held-count k v, held-count k (put v fast o))
  held-put k v high o = omega (arith, held-count k v, held-count k (put v high o))
  held-put k v nominal o = omega (arith, held-count k v, held-count k (put v nominal o))
  held-put k v low o = omega (arith, held-count k v, held-count k (put v low o))
  held-put k v slow o = omega (arith, held-count k v, held-count k (put v slow o))
  held-put k v optional o = omega (arith, held-count k v, held-count k (put v optional o))

  pub length-index_of : (o : Option (TransferEntry p)) → length (index_of o) ≤ 1
  length-index_of none = omega arith
  length-index_of (some e) = omega arith

  -- A priority without a transfer leaves a buffer to others.
  pub length-held :
      (v : PriorityArray (Option (TransferEntry p))) (q : Priority)
      → length (held v) ≤ 7 + length (index_of (v q))
  unfolding held
  length-held v exceptional = omega (arith, length-append {0}, length-index_of)
  length-held v immediate = omega (arith, length-append {0}, length-index_of)
  length-held v fast = omega (arith, length-append {0}, length-index_of)
  length-held v high = omega (arith, length-append {0}, length-index_of)
  length-held v nominal = omega (arith, length-append {0}, length-index_of)
  length-held v low = omega (arith, length-append {0}, length-index_of)
  length-held v slow = omega (arith, length-append {0}, length-index_of)
  length-held v optional = omega (arith, length-append {0}, length-index_of)

  pub length-held_ge :
      (v : PriorityArray (Option (TransferEntry p))) (q : Priority)
      → length (index_of (v q)) ≤ length (held v)
  unfolding held
  length-held_ge v exceptional = omega (arith, length-append {0})
  length-held_ge v immediate = omega (arith, length-append {0})
  length-held_ge v fast = omega (arith, length-append {0})
  length-held_ge v high = omega (arith, length-append {0})
  length-held_ge v nominal = omega (arith, length-append {0})
  length-held_ge v low = omega (arith, length-append {0})
  length-held_ge v slow = omega (arith, length-append {0})
  length-held_ge v optional = omega (arith, length-append {0})

  abbrev pub EntryLive : List (List ℕ) → Option (TransferEntry p) → Type 0
  EntryLive buffers none = Unit {0}
  EntryLive buffers (some entry) =
      (buffer : List ℕ) × (get_elem? buffers entry.buffer_idx ≡ some buffer)
      × IsLive entry.scatter buffer

  -- Each index is held once, by a transfer, the scratchpad or the free list.
  pub record Slots (buffers : List (List ℕ)) (m : PriorityMap (TransferEntry p))
      (scratchpad : Option ℕ) (free : List ℕ) : Type 0 where
    pub all_buffers : length buffers ≡ buffer_count
    pub map : IsMap m
    pub holders : Partition buffer_count (held m.values ++ (slot scratchpad ++ free))
    pub live : (q : Priority) → EntryLive buffers (m.values q)

  abbrev pub IsValid : Inner p → Type 0
  IsValid s =
      Slots s.buffers s.transfers s.scratchpad_buffer_idx
        (p.vecs.contents buffer_count s.free_buffer_idx)

  module _ (buffers : List (List ℕ)) where
    pub live-put :
        (v : PriorityArray (Option (TransferEntry p))) (q : Priority) (o : Option (TransferEntry p))
        → EntryLive buffers o
        → ((r : Priority) → EntryLive buffers (v r))
        → (r : Priority) → EntryLive buffers (put v q o r)
    live-put v q o now rest r = elim (Bool-cases (eq q r)) [
      | inl same ↦ rw same now
      | inr other ↦ rw other (rest r)
    ]

    pub Slots-advance :
        (m : PriorityMap (TransferEntry p)) (q : Priority) (entry entry' : TransferEntry p)
        (scratch : Option ℕ) (free : List ℕ)
        → m.values q ≡ some entry
        → entry'.buffer_idx ≡ entry.buffer_idx
        → EntryLive buffers (some entry')
        → Slots buffers m scratch free
        → Slots buffers (PriorityMap.assign m q entry') scratch free
    Slots-advance m q entry entry' scratch free e same now v = record {
      all_buffers = v.all_buffers;
      map = assign-IsMap m q entry' entry e v.map;
      holders = λ k. ground (
        arith,
        v.holders k,
        held-put k m.values q (some entry'),
        count-append k (held m.values) (slot scratch ++ free),
        count-append k (held (put m.values q (some entry'))) (slot scratch ++ free),
      );
      live = live-put m.values q (some entry') now v.live;
    }

    pub Slots-release :
        (m : PriorityMap (TransferEntry p)) (q : Priority) (entry : TransferEntry p)
        (scratch : Option ℕ) (free : List ℕ)
        → m.values q ≡ some entry
        → Slots buffers m scratch free
        → Slots buffers (PriorityMap.remove m q).0 scratch (entry.buffer_idx ∷ free)
    unfolding PriorityMap.remove
    Slots-release m q entry scratch free e v = record {
      all_buffers = v.all_buffers;
      map = remove-IsMap m q v.map;
      holders = λ k. ground (
        arith,
        v.holders k,
        held-put k m.values q none,
        count-append k (held m.values) (slot scratch ++ free),
        count-append k (held (put m.values q none)) (slot scratch ++ (entry.buffer_idx ∷ free)),
        count-append k (slot scratch) free,
        count-append k (slot scratch) (entry.buffer_idx ∷ free),
      );
      live = live-put m.values q none tt v.live;
    }

    pub Slots-submit :
        (m : PriorityMap (TransferEntry p)) (q : Priority) (entry : TransferEntry p) (free : List ℕ)
        → m.values q ≡ none
        → EntryLive buffers (some entry)
        → Slots buffers m (some entry.buffer_idx) free
        → Slots buffers (PriorityMap.insert m q entry).0 none free
    unfolding PriorityMap.insert
    Slots-submit m q entry free e now v = record {
      all_buffers = v.all_buffers;
      map = insert-IsMap m q entry v.map;
      holders = λ k. ground (
        arith,
        v.holders k,
        held-put k m.values q (some entry),
        count-append k (held m.values) (entry.buffer_idx ∷ free),
        count-append k (held (put m.values q (some entry))) free,
      );
      live = live-put m.values q (some entry) now v.live;
    }

    pub Slots-take :
        (m : PriorityMap (TransferEntry p)) (idx : ℕ) (free : List ℕ)
        → Slots buffers m none (idx ∷ free)
        → Slots buffers m (some idx) free
    Slots-take m idx free v = record {
      all_buffers = v.all_buffers;
      map = v.map;
      holders = v.holders;
      live = v.live;
    }

    pub Slots-length :
        (m : PriorityMap (TransferEntry p)) (scratch : Option ℕ) (free : List ℕ)
        → Slots buffers m scratch free
        → length (held m.values) + length (slot scratch) + length free ≡ 8
    Slots-length m scratch free v = omega (
      arith,
      length-Partition 8 (held m.values ++ (slot scratch ++ free)) v.holders,
      length-append (held m.values) (slot scratch ++ free),
      length-append (slot scratch) free,
    )

    pub Slots-scratchpad :
        (m : PriorityMap (TransferEntry p)) (idx : ℕ) (free : List ℕ)
        → Slots buffers m (some idx) free
        → (buffer : List ℕ) × (get_elem? buffers idx ≡ some buffer)
    Slots-scratchpad m idx free v = get_elem?_total buffers idx (
        ground (arith, v.holders idx, v.all_buffers, count-append idx (held m.values) (idx ∷ free)))

    pub Slots-eq :
        {m m' : PriorityMap (TransferEntry p)} {c c' : Option ℕ} {r r' : List ℕ}
        → m ≡ m'
        → c ≡ c'
        → r ≡ r'
        → Slots buffers m c r
        → Slots buffers m' c' r'
    Slots-eq a d e v = rw (← a, ← d, ← e) v

  -- Where a priority is not ready to be pushed it has a transfer, and otherwise it has none.
  pub push_readiness-exact :
      (m : PriorityMap (TransferEntry p)) (q : Priority)
      → IsMap m
      → contains (complement (PriorityMap.keys m)) q ≡ not (is_some (m.values q))
  push_readiness-exact m q h = contains-complement m.key_set q h.small ∙ rw (h.exact q)
