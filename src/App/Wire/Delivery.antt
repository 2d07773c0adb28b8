-- ===== src/App/Wire/Delivery.antt =====
-- app/examples: what goes over datagrams is what the messages say.
mod Examples
use flip_flop_protocol.Common.{
  ℕ, zero, suc, ◌+◌, ◌^◌, ◌≤◌, ◌<◌, ◌≡◌, refl, arith, Option, none, some, List, [], ◌∷◌, ◌++◌, take,
  length, length-append,
}
use flip_flop_protocol.Common.Result.{Result, ok, err}
use flip_flop_protocol.App.{CommandRequest, NoEe, EventOf, EventReply, Serde, IsSerde, event_reply}
use flip_flop_protocol.App.Messages.{
  serialise_request, deserialise_request, serialise_reply, deserialise_reply, last_field_bytes,
  serialise_last_field-bytes, deserialise_request-serialise_request,
  deserialise_reply-serialise_reply,
}
use flip_flop_protocol.App.Server.{
  Entry, Server, Command, Event, CircularQueue, IsCircularQueue, max_events, reply, select_event,
}
use flip_flop_protocol.App.Server.Invariant.{Reachable}
use flip_flop_protocol.App.Server.Offsets.{IsOffset, IsEvent, reply-IsEvent}
use flip_flop_protocol.App.Client.{Client, request_of}
use flip_flop_protocol.App.Exchange.{exchange}
use flip_flop_protocol.App.Wire.{
  max_datagram_size, to_slice, recv_buf, send_request, receive_datagram, read_reply,
  receive_reply_datagram, exchange_datagrams,
}

-- The lengths of postcard's encodings: a `u32` takes five bytes at most, a `u64` ten, and a tag one.
pub record IsSized (offset_bytes : Option ℕ → List ℕ) (command_bytes : Command → List ℕ)
    (tick_bytes : ℕ → List ℕ) (event_bytes : EventOf Event NoEe → List ℕ) : Type 0 where
  pub offset_len : (o : Option ℕ) → IsOffset o → length (offset_bytes o) ≤ 6
  pub command_len : (c : Command) → length (command_bytes c) ≤ 1
  pub tick_len : (t : ℕ) → t < 2 ^ 64 → length (tick_bytes t) ≤ 10
  pub event_len : (e : EventOf Event NoEe) → IsEvent (some e) → length (event_bytes e) ≤ 11

take_fits : (n : ℕ) (d : List ℕ) → length d ≤ n → take n d ≡ d
take_fits zero [] h = refl
take_fits zero (x ∷ d) h = absurd (omega arith)
take_fits (suc n) [] h = refl
take_fits (suc n) (x ∷ d) h = rw (take_fits n d (omega arith)) refl

-- Bytes that fit the buffers are sent and received as they are.
to_slice_fits :
    {X : Type 0} {r : Result X (List ℕ)} {d bytes : List ℕ}
    → r ≡ ok d
    → r ≡ ok bytes
    → length bytes ≤ max_datagram_size
    → (to_slice r ≡ some d) × (recv_buf d ≡ d)
to_slice_fits {r = r} {d} {bytes} e e' h =
    let same : d ≡ bytes = ground arith in
    let fit : length d ≤ max_datagram_size = rw same h in
    (rw e (ground arith), take_fits max_datagram_size d fit)

last_field_len :
    {A : Type 0} (bytes : A → List ℕ) (n : ℕ) (o : Option A)
    → ((a : A) → o ≡ some a → length (bytes a) ≤ n)
    → length (last_field_bytes bytes o) ≤ n
last_field_len bytes n none h = omega arith
last_field_len bytes n (some a) h = h a refl

module _ {X : Type 0} {offsets : Serde X (Option ℕ)} {commands : Serde X Command}
    {ticks : Serde X ℕ} {events : Serde X (EventOf Event NoEe)} {offset_bytes : Option ℕ → List ℕ}
    {command_bytes : Command → List ℕ} {tick_bytes : ℕ → List ℕ}
    {event_bytes : EventOf Event NoEe → List ℕ} (offset_laws : IsSerde offsets offset_bytes)
    (command_laws : IsSerde commands command_bytes) (tick_laws : IsSerde ticks tick_bytes)
    (event_laws : IsSerde events event_bytes)
    (sizes : IsSized offset_bytes command_bytes tick_bytes event_bytes) where
  request_arrives :
      (x : X) (request : CommandRequest Command)
      → commands.deserialize [] ≡ err x
      → IsOffset request.last_event_offset
      → (d : List ℕ) × (to_slice (serialise_request offsets commands (ok []) request) ≡ some d)
        × (deserialise_request offsets commands (recv_buf d) ≡ ok request)
  unfolding serialise_request
  request_arrives x request h ho =
      let (d, written, read) =
        deserialise_request-serialise_request offsets commands offset_laws command_laws x request
          h in
      let field = last_field_bytes command_bytes request.command in
      let field_len = last_field_len command_bytes 1 request.command (λ c e. sizes.command_len c) in
      let bytes : serialise_request offsets commands (ok []) request
          ≡ ok (offset_bytes request.last_event_offset ++ field) =
        rw
          (
            offset_laws.serialize-bytes request.last_event_offset,
            serialise_last_field-bytes commands command_laws request.command,
          )
          refl in
      let (sent, arrived) = to_slice_fits written bytes (
        omega (
          arith,
          length-append (offset_bytes request.last_event_offset) field,
          sizes.offset_len request.last_event_offset ho,
          field_len,
        )) in
      (d, sent, rw arrived read)

  reply_arrives :
      (x : X) (r : EventReply (EventOf Event NoEe))
      → events.deserialize [] ≡ err x
      → r.delta_ticks < 2 ^ 64
      → IsEvent r.event
      → (d : List ℕ) × (to_slice (serialise_reply ticks events (ok []) r) ≡ some d)
        × (deserialise_reply ticks events (recv_buf d) ≡ ok r)
  unfolding serialise_reply
  reply_arrives x r h ht he =
      let (d, written, read) =
        deserialise_reply-serialise_reply ticks events tick_laws event_laws x r h in
      let field = last_field_bytes event_bytes r.event in
      let field_len =
        last_field_len event_bytes 11 r.event (λ e same. sizes.event_len e (rw same at he)) in
      let bytes : serialise_reply ticks events (ok []) r ≡ ok (tick_bytes r.delta_ticks ++ field) =
        rw
          (
            tick_laws.serialize-bytes r.delta_ticks,
            serialise_last_field-bytes events event_laws r.event,
          )
          refl in
      let (sent, arrived) = to_slice_fits written bytes (
        omega (
          arith,
          length-append (tick_bytes r.delta_ticks) field,
          sizes.tick_len r.delta_ticks ht,
          field_len,
        )) in
      (d, sent, rw arrived read)

  module _ {T Q : Type 0} (queue : CircularQueue Q (Entry T))
      (laws : IsCircularQueue max_events queue) (duration_since : T → ℕ)
      (ticks_u64 : (t : T) → duration_since t < 2 ^ 64) where
    ticks-event_reply :
        (o : Option (EventOf Event NoEe × T)) → (event_reply o duration_since).delta_ticks < 2 ^ 64
    unfolding event_reply
    ticks-event_reply none = omega arith
    ticks-event_reply (some (e, t)) = ticks_u64 t

    -- With postcard's encodings of the fields, which read back what they write and are no longer
    -- than it documents, commands and events that cannot be read from nothing, and delays that fit
    -- a `u64`, a poll of a reachable server by a client whose offset fits a `u32`, over datagrams
    -- that arrive, comes to the poll on the messages themselves: neither side's buffer of 32 bytes
    -- is ever too short.
    pub exchange_datagrams-exchange :
        (x y : X) (s : Server Q) (now : T) (c : Client)
        → commands.deserialize [] ≡ err x
        → events.deserialize [] ≡ err y
        → Reachable queue s
        → IsOffset c.last_event_offset
        → exchange_datagrams (ok []) offsets commands ticks events queue duration_since s now c
          ≡ exchange queue duration_since s now c
    unfolding exchange_datagrams send_request receive_datagram receive_reply_datagram read_reply
        request_of exchange reply
    exchange_datagrams-exchange x y s now c hx hy r ho =
        let (d, sent, read) = request_arrives x (request_of c) hx ho in
        let answer = reply queue duration_since s (request_of c) now in
        let small = ticks-event_reply (select_event queue s (request_of c) now) in
        let (d', sent', read') =
          reply_arrives y answer hy small
            (reply-IsEvent queue laws duration_since s (request_of c) now r) in
        rw (sent, receive_datagram, read, sent', read_reply, read') refl
