-- ===== src/Registry/TxQueue/Buffers.antt =====
-- emcyphal/src/buffer.rs, `DynamicTxBuffer`, and its implementations in buffer/tx_msg and
-- buffer/tx_resp: the buffers that the transmit queue reaches through the trait object. A call on the
-- object is the call of the buffer that it is.
use emcyphal.Common.{◌≡◌, ap, Option, none, some}
use emcyphal.Core.Priority.{Priority}
use emcyphal.Core.PrioritySet.{PrioritySet, new_eq, first}
use emcyphal.External.{Platform, IsStack}
use emcyphal.Frame.{Frame}
use emcyphal.Frame.Mtu.{Mtu}
use emcyphal.Buffer.Ready.{Gives}
use emcyphal.Buffer.Signal
use emcyphal.Buffer.Blocking
use emcyphal.Buffer.Response
use emcyphal.Registry.TxQueue.{TxBuffers}
use emcyphal.Registry.TxQueue.Serve.{IsTxBuffer}

module _ (p : Platform) where
  -- The buffers that implement the trait.
  pub data DynTxBuffer : Type 0 where
    signal : Signal.Inner p → DynTxBuffer
    blocking : Blocking.Inner p → DynTxBuffer
    response : Response.Inner p → DynTxBuffer

  abbrev pub Popped : Type 0 → Type 0
  Popped S = Option (S × Option (Frame p.clock.Instant))

  abbrev pub behind : {S : Type 0} → (S → DynTxBuffer) → Popped S → Popped DynTxBuffer
  behind c o = elim o [ none ↦ none | some (s, frame) ↦ some (c s, frame) ]

  unfoldable pub dyn_pop_readiness : DynTxBuffer → PrioritySet
  dyn_pop_readiness (signal s) = Signal.pop_readiness p s
  dyn_pop_readiness (blocking s) = Blocking.pop_readiness p s
  dyn_pop_readiness (response s) = Response.pop_readiness p s

  pub dyn_try_pop : DynTxBuffer → PrioritySet → Mtu → Popped DynTxBuffer
  dyn_try_pop (signal s) mask mtu = behind signal (Signal.try_pop p s mask mtu)
  dyn_try_pop (blocking s) mask mtu = behind blocking (Blocking.try_pop p s mask mtu)
  dyn_try_pop (response s) mask mtu = behind response (Response.try_pop p s mask mtu)

  abbrev pub dyn_buffers : TxBuffers p.clock.Instant
  dyn_buffers = record {
    State = DynTxBuffer;
    pop_readiness = dyn_pop_readiness;
    try_pop = dyn_try_pop;
  }

  abbrev pub IsValid : DynTxBuffer → Type 0
  IsValid (signal s) = Signal.Slots.IsValid p s
  IsValid (blocking s) = Blocking.Laws.IsValid p s
  IsValid (response s) = Response.Slots.IsValid p s

  behind-Gives :
      {S : Type 0} (Valid : S → Type 0) (c : S → DynTxBuffer) (q : Priority) (mtu : Mtu)
      (o : Popped S)
      → ((s : S) → Valid s → IsValid (c s))
      → Gives Valid q mtu o
      → Gives IsValid q mtu (behind c o)
  behind-Gives Valid c q mtu o valid g = record {
    after = c g.after;
    frame = g.frame;
    eq = ap (behind c) g.eq;
    valid = valid g.after g.valid;
    level = g.level;
    sound = g.sound;
  }

  -- Where the bounded vectors behave as stacks, each of the three transmit buffers (`Signal`,
  -- `Blocking` and the one for responses), in a valid state and asked for the most urgent priority
  -- that its `pop_readiness` shows, does not fail: its `try_pop` gives a frame of that priority,
  -- within the MTU and with a tail byte, and leaves the buffer valid.
  pub dyn_try_pop-Gives :
      IsStack p.vecs
      → (b : DynTxBuffer) (q : Priority) (mtu : Mtu) → IsValid b
      → first (dyn_pop_readiness b) ≡ some q
      → Gives IsValid q mtu (dyn_try_pop b (new_eq q) mtu)
  unfolding dyn_pop_readiness dyn_try_pop
  dyn_try_pop-Gives stack (signal s) q mtu v h =
      behind-Gives _ signal q mtu _ (λ t w. w) (Signal.Ready.try_pop-Gives p stack s q mtu v h)
  dyn_try_pop-Gives stack (blocking s) q mtu v h =
      behind-Gives _ blocking q mtu _ (λ t w. w) (Blocking.Ready.try_pop-Gives p s q mtu v h)
  dyn_try_pop-Gives stack (response s) q mtu v h =
      behind-Gives _ response q mtu _ (λ t w. w) (Response.Ready.try_pop-Gives p stack s q mtu v h)

  -- So the three have what the queue relies on.
  pub dyn_buffers-IsTxBuffer : IsStack p.vecs → IsTxBuffer dyn_buffers IsValid
  dyn_buffers-IsTxBuffer stack = record {
    try_pop_ready = λ b q mtu v h.
        let g = dyn_try_pop-Gives stack b q mtu v h in
        (g.after, g.frame, g.sound.last, g.eq, g.valid, g.level, g.sound.within, g.sound.tail);
  }
