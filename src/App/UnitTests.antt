-- ===== src/App/UnitTests.antt =====
-- app/src/lib.rs: the unit tests, as computations that return or panic. The derived encodings of the
-- field types are parameters.
use flip_flop_protocol.Common.{
  ℕ, zero, suc, ◌≡◌, refl, Bool, true, false, ◌&&◌, Option, none, some, List, [], ◌∷◌, ◌==◌, All,
}
use flip_flop_protocol.Common.Asserts.{eq_list, eq_maybe, assert_eq}
use flip_flop_protocol.Common.Outcome.{◌>>◌, Outcome, returns, panics, unwrap, ◌>>=◌}
use flip_flop_protocol.Common.Result.{Result, ok, err}
use flip_flop_protocol.App.{
  CommandRequest, NoEe, EventOf, logged, ephemeral, recovery, EventReply, event_reply, Serde,
  serialise_last_field, deserialise_last_field,
}
use flip_flop_protocol.App.Messages.{
  serialise_request, deserialise_request, serialise_reply, deserialise_reply,
}
use flip_flop_protocol.App.Wire.{to_slice}
use flip_flop_protocol.App.Toy.{option_serde, byte_serde}

-- The tests' own types.
data TestCommand : Type 0 where
  a b c : TestCommand

data TestEvent : Type 0 where
  a b : TestEvent

data TestTelemetry : Type 0 where
  a : TestTelemetry

abbrev unwrap_ok : {X T : Type 0} → Result X T → Outcome T
unwrap_ok (ok t) = returns t
unwrap_ok (err x) = panics

abbrev eq_number : ℕ → ℕ → Bool
eq_number m n = m == n

abbrev eq_request : {C : Type 0} → (C → C → Bool) → CommandRequest C → CommandRequest C → Bool
eq_request eq q r =
    eq_maybe eq_number q.last_event_offset r.last_event_offset && eq_maybe eq q.command r.command

abbrev eq_event :
    {E EE : Type 0} → (E → E → Bool) → (EE → EE → Bool) → EventOf E EE → EventOf E EE → Bool
eq_event eq eq' (logged e m) (logged f n) = eq e f && m == n
eq_event eq eq' (ephemeral e) (ephemeral f) = eq' e f
eq_event eq eq' (recovery m n) (recovery m' n') = m == m' && n == n'
eq_event eq eq' _ _ = false

abbrev eq_reply : {E : Type 0} → (E → E → Bool) → EventReply E → EventReply E → Bool
eq_reply eq q r = q.delta_ticks == r.delta_ticks && eq_maybe eq q.event r.event

module _ {X : Type 0} (serialize_unit : Result X (List ℕ)) (offsets : Serde X (Option ℕ)) where
  -- A request is written as these bytes and read back.
  assert_request :
      {C : Type 0} → Serde X C → (C → C → Bool) → CommandRequest C → List ℕ → Outcome (Unit {0})
  unfolding serialise_request deserialise_request
  assert_request commands eq request bytes = do
    serialised ← unwrap (to_slice (serialise_request offsets commands serialize_unit request))
    assert_eq (eq_list eq_number) serialised bytes
    read ← unwrap_ok (deserialise_request offsets commands serialised)
    assert_eq (eq_request eq) read request

  test_command_serialisation_with_a_command :
      Serde X TestCommand → (TestCommand → TestCommand → Bool) → Outcome (Unit {0})
  unfolding assert_request
  test_command_serialisation_with_a_command commands eq =
      assert_request commands eq
        (record { last_event_offset = some 9; command = some TestCommand.c }) (1 ∷ 9 ∷ 2 ∷ [])

  test_command_serialisation_with_no_command :
      Serde X TestCommand → (TestCommand → TestCommand → Bool) → Outcome (Unit {0})
  unfolding assert_request
  test_command_serialisation_with_no_command commands eq =
      assert_request commands eq (record { last_event_offset = none; command = none }) (0 ∷ [])

module _ {X : Type 0} (serialize_unit : Result X (List ℕ)) (ticks : Serde X ℕ) where
  -- A reply is written as these bytes and read back.
  assert_reply :
      {E : Type 0}
      → Serde X E
      → (E → E → Bool)
      → EventReply E
      → List ℕ
      → EventReply E
      → Outcome (Unit {0})
  unfolding serialise_reply deserialise_reply
  assert_reply events eq reply bytes expected = do
    serialised ← unwrap (to_slice (serialise_reply ticks events serialize_unit reply))
    assert_eq (eq_list eq_number) serialised bytes
    read ← unwrap_ok (deserialise_reply ticks events serialised)
    assert_eq (eq_reply eq) read expected

  test_event_serialisation :
      Serde X (EventOf TestEvent NoEe)
      → (EventOf TestEvent NoEe → EventOf TestEvent NoEe → Bool)
      → Outcome (Unit {0})
  unfolding assert_reply event_reply
  test_event_serialisation events eq =
      assert_reply events eq (event_reply {T = ℕ} (some (logged TestEvent.b 9, 0)) (λ t. 10))
        (10 ∷ 0 ∷ 1 ∷ 9 ∷ []) (record { delta_ticks = 10; event = some (logged TestEvent.b 9) })

  test_event_serialisation_with_no_more_events :
      Serde X (EventOf TestEvent NoEe)
      → (EventOf TestEvent NoEe → EventOf TestEvent NoEe → Bool)
      → Outcome (Unit {0})
  unfolding assert_reply event_reply
  test_event_serialisation_with_no_more_events events eq =
      assert_reply events eq (event_reply {T = ℕ} none (λ t. 10)) (0 ∷ [])
        (record { delta_ticks = 0; event = none })

  test_event_serialisation_with_either :
      Serde X (EventOf TestEvent TestTelemetry)
      → (EventOf TestEvent TestTelemetry → EventOf TestEvent TestTelemetry → Bool)
      → Outcome (Unit {0})
  unfolding assert_reply event_reply
  test_event_serialisation_with_either events eq = do
    assert_reply events eq (event_reply {T = ℕ} (some (logged TestEvent.b 9, 0)) (λ t. 10))
        (10 ∷ 0 ∷ 1 ∷ 9 ∷ []) (record { delta_ticks = 10; event = some (logged TestEvent.b 9) })
    assert_reply events eq (event_reply {T = ℕ} (some (ephemeral TestTelemetry.a, 0)) (λ t. 10))
        (10 ∷ 1 ∷ 0 ∷ []) (record { delta_ticks = 10; event = some (ephemeral TestTelemetry.a) })

-- Encodings of the types in the manner of postcard: the number of the constructor, and its fields.
abbrev command_index : TestCommand → ℕ
command_index TestCommand.a = 0
command_index TestCommand.b = 1
command_index TestCommand.c = 2

abbrev event_index : TestEvent → ℕ
event_index TestEvent.a = 0
event_index TestEvent.b = 1

abbrev read_command : List ℕ → Result (Unit {0}) (TestCommand × List ℕ)
read_command (zero ∷ d) = ok (TestCommand.a, d)
read_command (suc zero ∷ d) = ok (TestCommand.b, d)
read_command (suc (suc zero) ∷ d) = ok (TestCommand.c, d)
read_command _ = err tt

abbrev write_event :
    {EE : Type 0} → (EE → List ℕ) → EventOf TestEvent EE → Result (Unit {0}) (List ℕ)
write_event write (logged e offset) = ok (0 ∷ event_index e ∷ offset ∷ [])
write_event write (ephemeral e) = ok (1 ∷ write e)
write_event write (recovery start end) = ok (2 ∷ start ∷ end ∷ [])

abbrev read_event :
    {EE : Type 0}
    → (List ℕ → Result (Unit {0}) (EE × List ℕ))
    → List ℕ
    → Result (Unit {0}) (EventOf TestEvent EE × List ℕ)
read_event read (zero ∷ zero ∷ offset ∷ d) = ok (logged TestEvent.a offset, d)
read_event read (zero ∷ suc zero ∷ offset ∷ d) = ok (logged TestEvent.b offset, d)
read_event read (suc zero ∷ d) = elim (read d) [ ok (e, d') ↦ ok (ephemeral e, d') | err x ↦ err x ]
read_event read (suc (suc zero) ∷ start ∷ end ∷ d) = ok (recovery start end, d)
read_event read _ = err tt

abbrev command_serde : Serde (Unit {0}) TestCommand
command_serde = record { serialize = λ x. ok (command_index x ∷ []); deserialize = read_command }

abbrev event_serde : Serde (Unit {0}) (EventOf TestEvent NoEe)
event_serde = record {
  serialize = write_event (λ e. []);
  deserialize = read_event (λ d. ok (tt, d));
}

abbrev read_telemetry : List ℕ → Result (Unit {0}) (TestTelemetry × List ℕ)
read_telemetry (zero ∷ d) = ok (TestTelemetry.a, d)
read_telemetry _ = err tt

abbrev telemetry_serde : Serde (Unit {0}) (EventOf TestEvent TestTelemetry)
telemetry_serde = record {
  serialize = write_event (λ e. 0 ∷ []);
  deserialize = read_event read_telemetry;
}

abbrev eq_commands : TestCommand → TestCommand → Bool
eq_commands x y = command_index x == command_index y

abbrev eq_events : {EE : Type 0} → EventOf TestEvent EE → EventOf TestEvent EE → Bool
eq_events = eq_event (λ x y. event_index x == event_index y) (λ x y. true)

-- Each test returns with these encodings.
app_tests :
    All
      (λ test. test ≡ returns tt)
      (test_command_serialisation_with_a_command (ok []) option_serde command_serde eq_commands
        ∷ test_command_serialisation_with_no_command (ok []) option_serde command_serde eq_commands
        ∷ test_event_serialisation (ok []) byte_serde event_serde eq_events
        ∷ test_event_serialisation_with_no_more_events (ok []) byte_serde event_serde eq_events
        ∷ test_event_serialisation_with_either (ok []) byte_serde telemetry_serde eq_events
        ∷ [])
unfolding serialise_last_field deserialise_last_field test_command_serialisation_with_a_command
    test_command_serialisation_with_no_command test_event_serialisation
    test_event_serialisation_with_no_more_events test_event_serialisation_with_either
app_tests = (refl, (refl, (refl, (refl, (refl, tt)))))
