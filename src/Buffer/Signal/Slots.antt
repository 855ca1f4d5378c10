-- ===== src/Buffer/Signal/Slots.antt =====
-- emcyphal/src/buffer/tx_msg/signal.rs: the fields of a `Signal` that hold indexes of buffers.
use emcyphal.Common.{
  ℕ, ◌+◌, ◌≤◌, ◌≡◌, ◌≢◌, refl, List, [], ◌∷◌, ◌++◌, Option, none, some, arith, length,
  length-append, get_elem?, get_elem?_total,
}
use emcyphal.External.{Platform}
use emcyphal.Scatter.Live.{IsLive}
use emcyphal.Buffer.Owned.{Partition, length-Partition}
use emcyphal.Buffer.Signal.{TransferEntry, Inner, buffer_count}

module _ (p : Platform) where
  abbrev pub index_of : Option (TransferEntry p) → List ℕ
  index_of none = []
  index_of (some entry) = entry.buffer_idx ∷ []

  abbrev pub slot : Option ℕ → List ℕ
  slot none = []
  slot (some idx) = idx ∷ []

  -- A transfer is not sent to its end, and its bytes stand in its buffer.
  abbrev pub EntryLive : List (List ℕ) → Option (TransferEntry p) → Type 0
  EntryLive buffers none = Unit {0}
  EntryLive buffers (some entry) =
      (buffer : List ℕ) × (get_elem? buffers entry.buffer_idx ≡ some buffer)
      × IsLive entry.scatter buffer

  -- The fields that hold buffers: each index stands in exactly one of them, and once.
  pub record Slots (buffers : List (List ℕ)) (fragmented next : Option (TransferEntry p))
      (scratchpad : Option ℕ) (free : List ℕ) : Type 0 where
    pub two : length buffers ≡ buffer_count
    pub holders :
        Partition buffer_count (index_of fragmented ++ (index_of next ++ (slot scratchpad ++ free)))
    pub fragmented_live : EntryLive buffers fragmented
    pub next_live : EntryLive buffers next

  abbrev pub IsValid : Inner p → Type 0
  IsValid s =
      Slots s.buffers s.fragmented_transfer s.pending_transfer s.scratchpad_buffer_idx
        (p.vecs.contents buffer_count s.free_buffer_indexes)

  module _ (buffers : List (List ℕ)) where
    pub Slots-promote :
        (next : Option (TransferEntry p)) (scratch : Option ℕ) (free : List ℕ)
        → Slots buffers none next scratch free
        → Slots buffers next none scratch free
    Slots-promote none scratch free v = v
    Slots-promote (some entry) scratch free v = record {
      two = v.two;
      holders = v.holders;
      fragmented_live = v.next_live;
      next_live = tt;
    }

    pub Slots-advance :
        (entry entry' : TransferEntry p) (next : Option (TransferEntry p)) (scratch : Option ℕ)
        (free : List ℕ)
        → entry'.buffer_idx ≡ entry.buffer_idx
        → EntryLive buffers (some entry')
        → Slots buffers (some entry) next scratch free
        → Slots buffers (some entry') next scratch free
    Slots-advance entry entry' next scratch free same live v = record {
      two = v.two;
      holders = λ k. rw same (v.holders k);
      fragmented_live = live;
      next_live = v.next_live;
    }

    pub Slots-release :
        (entry : TransferEntry p) (next : Option (TransferEntry p)) (scratch : Option ℕ)
        (free : List ℕ)
        → Slots buffers (some entry) next scratch free
        → Slots buffers none next scratch (entry.buffer_idx ∷ free)
    Slots-release entry none none free v = record {
      two = v.two;
      holders = v.holders;
      fragmented_live = tt;
      next_live = tt;
    }
    Slots-release entry none (some idx) free v = record {
      two = v.two;
      holders = λ k. ground (arith, v.holders k);
      fragmented_live = tt;
      next_live = tt;
    }
    Slots-release entry (some n) none free v = record {
      two = v.two;
      holders = λ k. ground (arith, v.holders k);
      fragmented_live = tt;
      next_live = v.next_live;
    }
    Slots-release entry (some n) (some idx) free v = record {
      two = v.two;
      holders = λ k. ground (arith, v.holders k);
      fragmented_live = tt;
      next_live = v.next_live;
    }

    -- A free buffer becomes the scratchpad.
    pub Slots-take :
        (fragmented next : Option (TransferEntry p)) (idx : ℕ) (free : List ℕ)
        → Slots buffers fragmented next none (idx ∷ free)
        → Slots buffers fragmented next (some idx) free
    Slots-take fragmented next idx free v = record {
      two = v.two;
      holders = v.holders;
      fragmented_live = v.fragmented_live;
      next_live = v.next_live;
    }

    -- The buffer of the pending transfer becomes the scratchpad.
    pub Slots-steal :
        (fragmented : Option (TransferEntry p)) (entry : TransferEntry p) (free : List ℕ)
        → Slots buffers fragmented (some entry) none free
        → Slots buffers fragmented none (some entry.buffer_idx) free
    Slots-steal fragmented entry free v = record {
      two = v.two;
      holders = v.holders;
      fragmented_live = v.fragmented_live;
      next_live = tt;
    }

    -- The scratchpad becomes the buffer of a pending transfer.
    pub Slots-submit :
        (fragmented : Option (TransferEntry p)) (entry : TransferEntry p) (free : List ℕ)
        → EntryLive buffers (some entry)
        → Slots buffers fragmented none (some entry.buffer_idx) free
        → Slots buffers fragmented (some entry) none free
    Slots-submit fragmented entry free live v = record {
      two = v.two;
      holders = v.holders;
      fragmented_live = v.fragmented_live;
      next_live = live;
    }

    pub Slots-replace :
        (fragmented : Option (TransferEntry p)) (prev entry : TransferEntry p) (free : List ℕ)
        → EntryLive buffers (some entry)
        → Slots buffers fragmented (some prev) (some entry.buffer_idx) free
        → Slots buffers fragmented (some entry) none (prev.buffer_idx ∷ free)
    Slots-replace none prev entry free live v = record {
      two = v.two;
      holders = λ k. ground (arith, v.holders k);
      fragmented_live = tt;
      next_live = live;
    }
    Slots-replace (some f) prev entry free live v = record {
      two = v.two;
      holders = λ k. ground (arith, v.holders k);
      fragmented_live = v.fragmented_live;
      next_live = live;
    }

    -- Without a scratchpad and a free buffer there is a pending transfer.
    pub Slots-pending :
        (fragmented next : Option (TransferEntry p))
        → Slots buffers fragmented next none []
        → (entry : TransferEntry p) × (next ≡ some entry)
    Slots-pending fragmented (some entry) v = (entry, refl)
    Slots-pending none none v = absurd (omega (arith, length-Partition 2 [] v.holders))
    Slots-pending (some f) none v =
        absurd (omega (arith, length-Partition 2 (f.buffer_idx ∷ []) v.holders))

    -- While a transfer or the scratchpad holds a buffer there is room in the free list.
    pub Slots-room :
        (fragmented next : Option (TransferEntry p)) (scratch : Option ℕ) (free : List ℕ)
        → Slots buffers fragmented next scratch free
        → length (index_of fragmented) + length (slot scratch) + length free ≤ 2
    Slots-room fragmented next scratch free v = omega (
      arith,
      length-Partition 2 (index_of fragmented ++ (index_of next ++ (slot scratch ++ free)))
          v.holders,
      length-append (index_of fragmented) (index_of next ++ (slot scratch ++ free)),
      length-append (index_of next) (slot scratch ++ free),
      length-append (slot scratch) free,
    )

    -- The index of the scratchpad is that of a buffer.
    pub Slots-scratchpad :
        (fragmented next : Option (TransferEntry p)) (idx : ℕ) (free : List ℕ)
        → Slots buffers fragmented next (some idx) free
        → (buffer : List ℕ) × (get_elem? buffers idx ≡ some buffer)
    Slots-scratchpad none none idx free v =
        get_elem?_total buffers idx (ground (arith, v.holders idx, v.two))
    Slots-scratchpad none (some n) idx free v =
        get_elem?_total buffers idx (ground (arith, v.holders idx, v.two))
    Slots-scratchpad (some f) none idx free v =
        get_elem?_total buffers idx (ground (arith, v.holders idx, v.two))
    Slots-scratchpad (some f) (some n) idx free v =
        get_elem?_total buffers idx (ground (arith, v.holders idx, v.two))

    pub Slots-eq :
        {f f' n n' : Option (TransferEntry p)} {c c' : Option ℕ} {r r' : List ℕ}
        → f ≡ f'
        → n ≡ n'
        → c ≡ c'
        → r ≡ r'
        → Slots buffers f n c r
        → Slots buffers f' n' c' r'
    Slots-eq a b d e v = rw (← a, ← b, ← d, ← e) v

    -- No transfer holds the scratchpad.
    pub Slots-apart :
        (fragmented next : Option (TransferEntry p)) (idx : ℕ) (free : List ℕ)
        → Slots buffers fragmented next (some idx) free
        → ((entry : TransferEntry p) → fragmented ≡ some entry → entry.buffer_idx ≢ idx)
          × ((entry : TransferEntry p) → next ≡ some entry → entry.buffer_idx ≢ idx)
    Slots-apart none none idx free v = (λ e h. cc, λ e h. cc)
    Slots-apart none (some n) idx free v = (λ e h. cc, λ e h same. ground (arith, v.holders idx))
    Slots-apart (some f) none idx free v = (λ e h same. ground (arith, v.holders idx), λ e h. cc)
    Slots-apart (some f) (some n) idx free v =
        (λ e h same. ground (arith, v.holders idx), λ e h same. ground (arith, v.holders idx))
