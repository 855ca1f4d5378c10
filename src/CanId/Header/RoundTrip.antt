-- ===== src/CanId/Header/RoundTrip.antt =====
-- emcyphal-stm32-native/src/raw.rs: the identifier of a header, loaded again.
use mathlib.Core.Path.{subst}
use emcyphal.Common.{
  ℕ, ◌+◌, ◌*◌, ◌≤◌, ◌<◌, ◌≡◌, refl, sym, ap, ◌∙◌, Bool, true, false, not, Option, none, some, ◌==◌,
  if◌then◌else◌, arith, some_unique,
}
use emcyphal.Core.Priority.{Priority, into_u8}
use emcyphal.Core.Priority.Laws.{into_u8-lt}
use emcyphal.Core.Ids.NodeId.{NodeId}
use emcyphal.Frame.{Header, DataSpecifier, message, request, response}
use emcyphal.CanId.Message
use emcyphal.CanId.Service
use emcyphal.CanId.Message.{
  set_priority, set_anonymous, set_subject, set_source, from_can_id, priority, anonymous, subject,
  source,
}
use emcyphal.CanId.Header.{make_can_id, load_msg_frame_header, load_srv_frame_header}

-- The ranges that the identifiers' types give.
abbrev pub InRange : DataSpecifier → Type 0
InRange (message s) = s < 8192
InRange (request s) = s < 512
InRange (response s) = s < 512

abbrev pub IsNode : Option NodeId → Type 0
IsNode none = 0 ≤ 0
IsNode (some n) = n < 128

abbrev pub IsValid : Header → Type 0
IsValid h = InRange h.data_spec × IsNode h.source × IsNode h.destination

-- The loader of the header's kind gives it back, and the other refuses the identifier.
abbrev pub Loads : DataSpecifier → ℕ → Header → Type 0
Loads (message s) id h = (load_msg_frame_header id ≡ some h) × (load_srv_frame_header id ≡ none)
Loads (request s) id h = (load_srv_frame_header id ≡ some h) × (load_msg_frame_header id ≡ none)
Loads (response s) id h = (load_srv_frame_header id ≡ some h) × (load_msg_frame_header id ≡ none)

message_word :
    (p : Priority) (s n : ℕ)
    → s < 8192
    → n < 128
    → set_source (set_subject (set_anonymous (set_priority Message.new p) false) s) n
      ≡ into_u8 p * 67108864 + 6291456 + s * 256 + n
message_word p s n hs hn =
    let b = into_u8-lt p in
    let e1 = Message.Laws.set_priority_lem 6291456 p (omega arith) in
    let a : ℕ = into_u8 p * 67108864 + 6291456 in
    let f1 : set_priority Message.new p ≡ a = e1 ∙ omega arith in
    let f2 : set_anonymous a false ≡ a =
      Message.Laws.set_anonymous-false a (omega arith) ∙ omega arith in
    let f3 : set_subject a s ≡ a + s * 256 =
      Message.Laws.set_subject_lem a s (omega arith) hs ∙ omega arith in
    let f4 = Message.Laws.set_source_lem (a + s * 256) n (omega arith) hn in
    ap (λ t. set_source (set_subject (set_anonymous t false) s) n) f1
    ∙ ap (λ t. set_source (set_subject t s) n) f2
    ∙ ap (λ t. set_source t n) f3
    ∙ f4
    ∙ omega arith

message-Loads :
    (p : Priority) (s n : ℕ)
    → s < 8192
    → n < 128
    → Loads
        (message s)
        (into_u8 p * 67108864 + 6291456 + s * 256 + n)
        (record { priority = p; data_spec = message s; source = some n; destination = none })
unfolding load_msg_frame_header load_srv_frame_header
message-Loads p s n hs hn =
    let b = into_u8-lt p in
    let w : ℕ = into_u8 p * 67108864 + 6291456 + s * 256 + n in
    let f : Message.from_can_id w ≡ some w =
      Message.Laws.from_can_id_lem w (omega arith) (omega arith) (omega arith)
      ∙ ap some (omega arith) in
    let g : Service.from_can_id w ≡ none = Service.Laws.from_can_id-none w (omega arith) in
    let ep = Message.Laws.priority_lem w p (omega arith) in
    let es : Message.subject w ≡ s = Message.Laws.subject_lem w ∙ omega arith in
    let ea = Message.Laws.anonymous_lem w (omega arith) in
    let en : Message.source w ≡ n = Message.Laws.source_lem w ∙ omega arith in
    (rw (load_msg_frame_header, f, ep, es, ea, en), rw (load_srv_frame_header, g))

-- The word of a service frame; `q` is 1 for a request.
service_loads :
    (p : Priority) (q s d n : ℕ)
    → q < 2
    → s < 512
    → d < 128
    → n < 128
    → (load_srv_frame_header
          (into_u8 p * 67108864 + 33554432 + q * 16777216 + s * 16384 + d * 128 + n)
        ≡ some (record {
          priority = p;
          data_spec = if not (q == 0) then request s else response s;
          source = some n;
          destination = some d;
        }))
      × (load_msg_frame_header
            (into_u8 p * 67108864 + 33554432 + q * 16777216 + s * 16384 + d * 128 + n)
          ≡ none)
unfolding load_msg_frame_header load_srv_frame_header
service_loads p q s d n hq hs hd hn =
    let b = into_u8-lt p in
    let w : ℕ = into_u8 p * 67108864 + 33554432 + q * 16777216 + s * 16384 + d * 128 + n in
    let f : Service.from_can_id w ≡ some w =
      Service.Laws.from_can_id_lem w (omega arith) (omega arith) ∙ ap some (omega arith) in
    let g : Message.from_can_id w ≡ none = Message.Laws.from_can_id-none w (omega arith) in
    let ep = Service.Laws.priority_lem w p (omega arith) in
    let eq : Service.request w ≡ not (q == 0) =
      Service.Laws.request_lem w ∙ ap (λ t. not (t == 0)) (omega arith) in
    let es : Service.service w ≡ s = Service.Laws.service_lem w ∙ omega arith in
    let ed : Service.destination w ≡ d = Service.Laws.destination_lem w ∙ omega arith in
    let en : Service.source w ≡ n = Service.Laws.source_lem w ∙ omega arith in
    (rw (load_srv_frame_header, f, ep, eq, es, ed, en), rw (load_msg_frame_header, g))

service_word :
    (p : Priority) (q s d n : ℕ) (flag : Bool)
    → q < 2
    → s < 512
    → d < 128
    → n < 128
    → Service.set_request (into_u8 p * 67108864 + 33554432) flag
      ≡ into_u8 p * 67108864 + 33554432 + q * 16777216
    → Service.set_source
        (Service.set_destination
          (Service.set_service (Service.set_request (Service.set_priority Service.new p) flag) s)
          d)
        n
      ≡ into_u8 p * 67108864 + 33554432 + q * 16777216 + s * 16384 + d * 128 + n
service_word p q s d n flag hq hs hd hn set =
    let b = into_u8-lt p in
    let f1 : Service.set_priority Service.new p ≡ into_u8 p * 67108864 + 33554432 =
      Service.Laws.set_priority_lem 33554432 p (omega arith) ∙ omega arith in
    let a : ℕ = into_u8 p * 67108864 + 33554432 + q * 16777216 in
    let f3 : Service.set_service a s ≡ a + s * 16384 =
      Service.Laws.set_service_lem a s (omega arith) hs ∙ omega arith in
    let f4 : Service.set_destination (a + s * 16384) d ≡ a + s * 16384 + d * 128 =
      Service.Laws.set_destination_lem (a + s * 16384) d (omega arith) hd ∙ omega arith in
    let f5 = Service.Laws.set_source_lem (a + s * 16384 + d * 128) n (omega arith) hn in
    rw (f1, set, f3, f4, f5) (omega arith)

-- A word, given by an equation, is a 29-bit identifier and loads as the header.
made :
    (d : DataSpecifier) (h : Header) (x word id : ℕ)
    → some x ≡ some id
    → x ≡ word
    → word < 536870912
    → Loads d word h
    → (id < 536870912) × Loads d id h
made d h x word id e f small loads =
    subst (λ t. (t < 536870912) × Loads d t h) (sym f ∙ some_unique refl e) (small, loads)

load_make :
    (p : Priority) (d : DataSpecifier) (src dst : Option NodeId) (id : ℕ)
    → InRange d
    → IsNode src
    → IsNode dst
    → make_can_id (record { priority = p; data_spec = d; source = src; destination = dst })
      ≡ some id
    → (id < 536870912)
      × Loads d id (record { priority = p; data_spec = d; source = src; destination = dst })
unfolding make_can_id
load_make p (message s) (some n) none id hd hs ht e =
    let b = into_u8-lt p in
    made (message s) _ _ _ id e (message_word p s n hd hs) (omega arith) (message-Loads p s n hd hs)
load_make p (message s) none none id hd hs ht e = ground arith
load_make p (message s) src (some t) id hd hs ht e = ground arith
load_make p (request s) src none id hd hs ht e = ground arith
load_make p (request s) none (some t) id hd hs ht e = ground arith
load_make p (request s) (some n) (some t) id hd hs ht e =
    let b = into_u8-lt p in
    let q : Service.set_request (into_u8 p * 67108864 + 33554432) true
        ≡ into_u8 p * 67108864 + 33554432 + 1 * 16777216 =
      Service.Laws.set_request-true _ (omega arith) ∙ omega arith in
    made (request s) _ _ _ id e (service_word p 1 s t n true (omega arith) hd ht hs q) (omega arith)
      (service_loads p 1 s t n (omega arith) hd ht hs)
load_make p (response s) src none id hd hs ht e = ground arith
load_make p (response s) none (some t) id hd hs ht e = ground arith
load_make p (response s) (some n) (some t) id hd hs ht e =
    let b = into_u8-lt p in
    let q : Service.set_request (into_u8 p * 67108864 + 33554432) false
        ≡ into_u8 p * 67108864 + 33554432 + 0 * 16777216 =
      Service.Laws.set_request-false _ (omega arith) ∙ omega arith in
    made (response s) _ _ _ id e (service_word p 0 s t n false (omega arith) hd ht hs q)
      (omega arith) (service_loads p 0 s t n (omega arith) hd ht hs)

-- When a driver makes a CAN identifier of a header whose ids are in range, the identifier has 29
-- bits, the loader for the header's kind gives the same header back, and the loader for the other
-- kind refuses the identifier.
pub load-make_can_id :
    (h : Header) (id : ℕ)
    → IsValid h
    → make_can_id h ≡ some id
    → (id < 536870912) × Loads h.data_spec id h
load-make_can_id h id (hd, hs, ht) e =
    load_make h.priority h.data_spec h.source h.destination id hd hs ht e
