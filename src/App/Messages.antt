-- ===== src/App/Messages.antt =====
-- app/src/lib.rs: the derived encodings of the two messages, which go through the fields in their
-- order, and what is read back from them.
use flip_flop_protocol.Common.{
  ℕ, ◌≡◌, refl, sym, ap, ◌∙◌, Option, none, some, List, [], ◌++◌, append-nil, inl, inr,
}
use flip_flop_protocol.Common.Result.{Result, ok, err, ◌>>=◌, Result-cases}
use flip_flop_protocol.App.{
  CommandRequest, EventReply, Serde, IsSerde, serialise_last_field, deserialise_last_field,
}

module _ {X C : Type 0} (offsets : Serde X (Option ℕ)) (commands : Serde X C) where
  unfoldable pub serialise_request : Result X (List ℕ) → CommandRequest C → Result X (List ℕ)
  serialise_request serialize_unit request = do
    last_event_offset ← offsets.serialize request.last_event_offset
    command ← serialise_last_field commands serialize_unit request.command
    ok (last_event_offset ++ command)

  unfoldable pub deserialise_request : List ℕ → Result X (CommandRequest C)
  deserialise_request d = do
    (last_event_offset, rest) ← offsets.deserialize d
    command ← deserialise_last_field commands rest
    ok (record { last_event_offset = last_event_offset; command = command })

module _ {X E : Type 0} (ticks : Serde X ℕ) (events : Serde X E) where
  unfoldable pub serialise_reply : Result X (List ℕ) → EventReply E → Result X (List ℕ)
  serialise_reply serialize_unit reply = do
    delta_ticks ← ticks.serialize reply.delta_ticks
    event ← serialise_last_field events serialize_unit reply.event
    ok (delta_ticks ++ event)

  unfoldable pub deserialise_reply : List ℕ → Result X (EventReply E)
  deserialise_reply d = do
    (delta_ticks, rest) ← ticks.deserialize d
    event ← deserialise_last_field events rest
    ok (record { delta_ticks = delta_ticks; event = event })

-- The bytes of a last field.
abbrev pub last_field_bytes : {T : Type 0} → (T → List ℕ) → Option T → List ℕ
last_field_bytes bytes none = []
last_field_bytes bytes (some t) = bytes t

module _ {X T : Type 0} (serde : Serde X T) {bytes : T → List ℕ} (laws : IsSerde serde bytes) where
  pub serialise_last_field-bytes :
      (o : Option T) → serialise_last_field serde (ok []) o ≡ ok (last_field_bytes bytes o)
  unfolding serialise_last_field
  serialise_last_field-bytes none = refl
  serialise_last_field-bytes (some t) = laws.serialize-bytes t

  deserialize-bytes : (t : T) → serde.deserialize (bytes t) ≡ ok (t, [])
  deserialize-bytes t =
      ap serde.deserialize (sym (append-nil (bytes t))) ∙ laws.deserialize-append t []

  deserialise_last_field-bytes :
      (x : X) (o : Option T)
      → serde.deserialize [] ≡ err x
      → deserialise_last_field serde (last_field_bytes bytes o) ≡ ok o
  unfolding deserialise_last_field
  deserialise_last_field-bytes x none h = rw (h, deserialise_last_field) refl
  deserialise_last_field-bytes x (some t) h = rw (deserialize-bytes t, deserialise_last_field) refl

  -- Where a value is written as nothing, a last field that was left out is read as that value.
  pub deserialise_last_field_empty :
      (t : T) → bytes t ≡ [] → deserialise_last_field serde [] ≡ ok (some t)
  unfolding deserialise_last_field
  deserialise_last_field_empty t h =
      let e = rw h at (deserialize-bytes t) in rw (e, deserialise_last_field) refl

-- Reading a last field never fails, whatever the bytes are.
pub deserialise_last_field-ok :
    {X T : Type 0} (serde : Serde X T) (d : List ℕ)
    → (o : Option T) × (deserialise_last_field serde d ≡ ok o)
unfolding deserialise_last_field
deserialise_last_field-ok serde d = elim (Result-cases (serde.deserialize d)) [
  | inl ((t, rest), e) ↦ (some t, rw (e, deserialise_last_field) refl)
  | inr (x, e) ↦ (none, rw (e, deserialise_last_field) refl)
]

module _ {X C : Type 0} (offsets : Serde X (Option ℕ)) (commands : Serde X C)
    {offset_bytes : Option ℕ → List ℕ} {command_bytes : C → List ℕ}
    (offset_laws : IsSerde offsets offset_bytes)
    (command_laws : IsSerde commands command_bytes) where
  -- With encodings of the fields that read back what they write, a unit that is written as nothing
  -- and commands that cannot be read from nothing, every request is written, and is read back as
  -- it was.
  pub deserialise_request-serialise_request :
      (x : X) (request : CommandRequest C)
      → commands.deserialize [] ≡ err x
      → (d : List ℕ) × (serialise_request offsets commands (ok []) request ≡ ok d)
        × (deserialise_request offsets commands d ≡ ok request)
  unfolding serialise_request deserialise_request
  deserialise_request-serialise_request x request h =
      let command = last_field_bytes command_bytes request.command in
      (
        offset_bytes request.last_event_offset ++ command,
        rw
            (
              offset_laws.serialize-bytes request.last_event_offset,
              serialise_last_field-bytes commands command_laws request.command,
            )
            refl,
        rw
            (
              offset_laws.deserialize-append request.last_event_offset command,
              deserialise_last_field-bytes commands command_laws x request.command h,
            )
            refl,
      )

module _ {X E : Type 0} (ticks : Serde X ℕ) (events : Serde X E) {tick_bytes : ℕ → List ℕ}
    {event_bytes : E → List ℕ} (tick_laws : IsSerde ticks tick_bytes)
    (event_laws : IsSerde events event_bytes) where
  -- With encodings of the fields that read back what they write, a unit that is written as nothing
  -- and events that cannot be read from nothing, every reply is written, and is read back as it
  -- was.
  pub deserialise_reply-serialise_reply :
      (x : X) (reply : EventReply E)
      → events.deserialize [] ≡ err x
      → (d : List ℕ) × (serialise_reply ticks events (ok []) reply ≡ ok d)
        × (deserialise_reply ticks events d ≡ ok reply)
  unfolding serialise_reply deserialise_reply
  deserialise_reply-serialise_reply x reply h =
      let event = last_field_bytes event_bytes reply.event in
      (
        tick_bytes reply.delta_ticks ++ event,
        rw
            (
              tick_laws.serialize-bytes reply.delta_ticks,
              serialise_last_field-bytes events event_laws reply.event,
            )
            refl,
        rw
            (
              tick_laws.deserialize-append reply.delta_ticks event,
              deserialise_last_field-bytes events event_laws x reply.event h,
            )
            refl,
      )
