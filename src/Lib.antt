-- ===== src/Lib.antt =====
-- Emcyphal, a stack for the Cyphal protocol over CAN without dynamic memory: a model of its core.
--
-- A transfer that a client pushes goes into a transmit buffer, which holds its bytes and, as a
-- `Scatter`, how far it is sent. Each time a driver has room it pops a frame of a given priority set
-- and MTU from a buffer; the frame's header becomes a CAN identifier. On the other side an
-- identifier becomes a header again and the frames of a transfer go into a `Gather`, which delivers
-- the payload when the last one is in and the checksum is right.
--
-- The parts and the files that model them:
--   Core      emcyphal-core/src/lib.rs: `Priority`, `PrioritySet` and the identifiers.
--   Frame     emcyphal-driver/src/frame.rs: lengths, headers, data and MTUs of frames.
--   Format    emcyphal/src/format.rs: the checksum of a transfer (`TransferCrc`) and the tail byte
--             that ends each frame.
--   Scatter   emcyphal/src/buffer/scatter.rs: `Scatter::fetch_frame_data`, a frame at a time.
--             Scatter/Segments and Scatter/Frames have the lemmas on what a frame holds, Scatter/Live
--             those on a transfer that is not at its end.
--   Gather    emcyphal/src/buffer/gather.rs: `Gather::push_frame`, its states, time-outs and toggles.
--   Session   a transfer that is fetched from a `Scatter` and pushed into a `Gather`, frame by frame.
--   Utils     emcyphal/src/utils.rs: arrays and maps indexed by priority, and a filtered waker.
--             Utils/DuplexArray is utils/stacked_array.rs, Utils/MultiClassQueue is
--             utils/multi_class_queue.rs, Utils/PriorityQueue is utils/priority_queue.rs and
--             Utils/IndexQueue is utils/index_queue.rs. Below
--             the class queue, Fill has the loop of the constructors, Chain, Relink, Rings, Moves and Puts are about links, Writes about the
--             code's assignments, and Shows about the state as a list for each class; below the
--             priority queue, Holds and Does relate its state and a call of it to the lists of Spec,
--             and Push and Pop are about one call. Refine has the sequences of calls of either.
--   Buffer    emcyphal/src/buffer: Buffer/Signal is tx_msg/signal.rs, Buffer/Blocking is
--             tx_msg/blocking.rs, Buffer/Response is tx_resp/blocking.rs, Buffer/Types the errors and
--             the metadata (buffer.rs, endpoint.rs). Buffer/Owned has the lemmas on indexes with one
--             holder each; the modules Slots and Laws below a buffer apply them. Buffer/Ready and the
--             modules of that name are about what a buffer gives to the transmit queue, and
--             Buffer/Signal/Reach is about sequences of calls.
--             Buffer/RxPriorityFifo is rx_priority_fifo.rs, the buffer of a receiver, and its child
--             Transfers the `TransferQueue`. Stock and Grant are about the queue, Ledger about who
--             holds which buffer, Start, Read, Lent and Accept about the calls, and NoSessions about a
--             buffer with no session slots. Buffer/Watch is rx_msg/watch.rs, which keeps the newest
--             message.
--   Registry  Registry/TxQueue is emcyphal/src/registry/tx_queue.rs, which picks the buffer that sends
--             next. Registry/TxQueue/Marks has the lemmas on lists, flags and marks one at a time, and
--             Order those on the order of a list. Lists and Back are about taking an entry out and
--             putting it at the end, Place says where an entry belongs, and Laws that it goes there;
--             Choice, Sent and Serve are about popping a frame. The buffers are an interface there
--             (`TxBuffers`, with the law `IsTxBuffer`), which Buffers fills with the three transmit
--             buffers, as the trait object of buffer.rs does.
--   CanId     emcyphal-stm32-native/src/format.rs and the header functions of raw.rs: identifiers and
--             filter patterns. emcyphal-stm32-embassy/src/format.rs has the same layout.
--   Time, External
--             what the code calls and does not define: the clock (embassy-time), the waker
--             registrations (embassy-sync), bounded vectors (heapless) and linked lists
--             (intrusive_collections). They are records that
--             the definitions take as an argument; `IsStack` states the documented behaviour of a
--             bounded vector that is used as a stack, `IsLinkedList` that of a list. Tests/External and
--             Tests/Queue fill them in.
--   Common    the shared helpers: library names, lists, slices, and the bit operations on words.
--   Tests     runs at fixed inputs and the theorems at inputs that meet their hypotheses.
--
-- How code corresponds to definitions. Numbers are naturals; a byte, a `u16` and a `u32` keep their
-- wrap-around (`% 256`, `% 2 ^ 32`) and their complement (`255 - x`) written out. A method on
-- `&mut self` returns the new state with its result. `none` around a result is a panic: a failed
-- `unwrap!` or assertion, or an index or a slice out of range; a theorem that an operation gives
-- `some` is a theorem that it does not panic. A result of the code that is an `Option` or a
-- `Result` stands inside it. Memory behind a raw pointer is a field of the state (`buffers`), and the
-- slice that `get_scratchpad` hands out is named by its index; the client's writes to it are steps.
--
-- Bounds. An iteration over a priority set takes nine calls of `next`: eight levels and the end.
-- An exchange of a payload of n bytes is given a schedule of n + 2 turns, since each frame carries
-- a byte of the payload or the checksum at least. Nothing else is on fuel.
--
-- Not modelled: the registries of endpoints and the async endpoints; register and message RAM
-- access of the drivers; the copy of the fdcan register layouts; the encoding traits, logging
-- macros and examples. Wakers are only recorded, so nothing is said of when a task runs.
pub mod Common
pub mod Core
pub mod Frame
pub mod Format
pub mod CanId
pub mod Time
pub mod External
pub mod Utils
pub mod Buffer
pub mod Registry
pub mod Gather
pub mod Scatter
pub mod Session
mod Tests
