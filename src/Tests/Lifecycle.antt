-- ===== src/Tests/Lifecycle.antt =====
-- The lifecycle provider at concrete values: a mailbox, its rotation, and an acknowledgement.
use session_chat.Prelude.{
  ℕ, ◌+◌, ◌≤◌, ◌≡◌, refl, arith, ◌∷◌, [], ◌++◌, true, false, none, some, All, find, update_first,
  filled, filter, any, all, checked_add,
}
use session_chat.Prelude.Outcome.{ok, err, is_ok}
use session_chat.Prelude.Bytes.{Bytes, same, Bytes-discrete, all_zero}
use session_chat.Protocol.Envelope
use session_chat.Protocol.Envelope.{OpaqueEnvelope}
use session_chat.Protocol.Parser.{
  array, u16, u64, byte_string, require_array, require_value, decode_fixed,
}
use session_chat.Transport.Contract.{
  OperationBudget, DepositRequest, from_canonical_bytes, from_validated, cursor_new,
}
use session_chat.Transport.Dispatch.{
  DispatchControl, DispatchObservation, default_checkpoint, default_control,
}
use session_chat.Receive.Binding.{
  fast_v1, CursorBindingV1, same_binding, scope_from_bytes, epoch_new, binding_new,
}
use session_chat.Receive.Rotation.{
  RotationRequestV1, compromise, validate_rotation_request, rotation_result_new,
}
use session_chat.Receive.Page.{PollRequest, ReceiveBatch, batch_new, check_items, has_repeat}
use session_chat.Receive.Checkpoint.{ReceivePollBindingV1}
use session_chat.Lifecycle.Provider.{
  DeterministicAuthorityV1, GenerationMaterial, StoredDelivery, LifecycleProvider, take_material,
  fresh_generation, authorities, mailbox_index, open_mailbox,
}
use session_chat.Lifecycle.Generations.{Rotated, rotate_at, rotate_active}
use session_chat.Lifecycle.Deliveries.{
  AcknowledgementRequest, deposit_now, poll_now, acknowledge_now, write, decode_cursor,
  maximum_sequence, poll_checks, collect, page_at, acknowledge_at, to_be_bytes,
}
use session_chat.Lifecycle.Compromise.{retired_refused}
use session_chat.Lifecycle.Acknowledged.{IsNew, acknowledged_not_polled}
use session_chat.Tests.Instances.{repeat, plain_cbor}

abbrev clock : DispatchControl ℕ
clock = default_control (λ k. (k + 1, k)) (λ k. (k + 1, some 30)) (λ k. (k + 1, false))

abbrev budget : OperationBudget
budget = record { deadline = 1000; max_network_bytes = 4096; max_attempts = 1 }

abbrev binding : CursorBindingV1
binding = record {
  profile = fast_v1;
  binding_fingerprint = repeat 32 1;
  continuity_id = repeat 16 1;
  generation = 1;
  receive_scope = repeat 32 2;
  cursor_schema = 2;
  provider_state_epoch = 1;
  expires_at = 900;
}

abbrev material : GenerationMaterial
material = record {
  binding = binding;
  deposit = repeat 32 3;
  receive = repeat 32 4;
  acknowledgement = repeat 32 5;
  rotation = repeat 32 6;
}

abbrev delivery : ℕ → StoredDelivery
delivery n = record {
  sequence = n;
  delivery_id = repeat 16 n;
  envelope_id = repeat 16 3;
  canonical_bytes =
      elim (Envelope.encode_canonical plain_cbor
        (record { envelope_id = repeat 16 3; expires_at = 900; ciphertext = 8 ∷ 9 ∷ [] })) [
          | ok encoded ↦ encoded
          | err _ ↦ []
        ];
  expires_at = 900;
  acknowledged = false;
}

-- A provider with one mailbox, with two deliveries.
abbrev provider : LifecycleProvider
provider = record {
  scope = 0;
  contract = record { profile = fast_v1; cursor_schema = 2; maximum_routine_drain = 300 };
  next_material = 7;
  next_delivery_sequence = 3;
  mailboxes =
      record { material = material; retire_at = none; deliveries = delivery 1 ∷ delivery 2 ∷ [] }
      ∷ [];
  active = binding ∷ [];
  rotations = [];
}

abbrev right : Bytes → DeterministicAuthorityV1
right token = record { scope = 0; binding = binding; token = token }

abbrev request : RotationRequestV1
request = record {
  rotation_id = repeat 16 9;
  predecessor = binding;
  successor_generation = 2;
  mode = compromise;
  successor_expires_at = 1800;
  budget = budget;
}

abbrev successor : GenerationMaterial
successor = record {
  binding = record binding { generation = 2; receive_scope = repeat 32 7; expires_at = 1800 };
  deposit = repeat 32 8;
  receive = repeat 32 9;
  acknowledgement = repeat 32 10;
  rotation = repeat 32 11;
}

abbrev result : Rotated
result = record {
  lifecycle_contract = provider.contract;
  rotation_id = repeat 16 9;
  predecessor_generation = 1;
  mode = compromise;
  authorities = authorities successor 0;
}

rotates : (rotate_at provider provider.contract (right (repeat 32 6)) request 30).1 ≡ ok result
unfolding rotate_at rotate_active fresh_generation take_material validate_rotation_request
    rotation_result_new find same_binding Bytes-discrete filled authorities all_zero
    scope_from_bytes epoch_new binding_new
rotates = refl

late :
    (budget : OperationBudget) (k : ℕ) (o : DispatchObservation)
    → (clock.checkpoint budget k).1 ≡ ok o
    → 30 ≤ o.wall_now
unfolding default_checkpoint
late budget k o h = ground arith

abbrev deposit : DepositRequest
deposit = record {
  envelope = record { bytes = 1 ∷ []; envelope_id = repeat 16 5; expires_at = 900 };
  budget = budget;
}

abbrev poll : PollRequest ReceivePollBindingV1
poll = record {
  cursor = none;
  receive_binding = none;
  max_envelopes = 8;
  max_encoded_bytes = 4096;
  wait = 1;
  budget = budget;
}

abbrev acknowledgement : AcknowledgementRequest
acknowledgement = record { delivery_ids = repeat 16 1 ∷ []; budget = budget }

abbrev rotated : LifecycleProvider
rotated = (rotate_at provider provider.contract (right (repeat 32 6)) request 30).0

none_kept : find (λ kept. same kept.rotation_id request.rotation_id) provider.rotations ≡ none
unfolding find
none_kept = refl

retired_refused_example :
    ((deposit_now clock 0 rotated (right (repeat 32 3)) deposit).1 ≡ rotated)
    × (is_ok (deposit_now clock 0 rotated (right (repeat 32 3)) deposit).2 ≡ false)
    × (is_ok (poll_now clock plain_cbor 0 rotated (right (repeat 32 3)) poll).1 ≡ false)
    × ((acknowledge_now clock 0 rotated (right (repeat 32 3)) acknowledgement).1 ≡ rotated)
    × (is_ok (acknowledge_now clock 0 rotated (right (repeat 32 3)) acknowledgement).2 ≡ false)
retired_refused_example =
    retired_refused clock plain_cbor provider provider.contract (right (repeat 32 6))
      (right (repeat 32 3)) request 30 result 0 deposit poll acknowledgement rotates none_kept refl
      late

abbrev acknowledged : LifecycleProvider
acknowledged = (acknowledge_now clock 0 provider (right (repeat 32 5)) acknowledgement).1

acknowledges :
    is_ok (acknowledge_now clock 0 provider (right (repeat 32 5)) acknowledgement).2 ≡ true
unfolding acknowledge_now acknowledge_at default_checkpoint open_mailbox mailbox_index find
    same_binding Bytes-discrete write update_first any all
acknowledges = refl

abbrev batch : ReceiveBatch ReceivePollBindingV1
batch = record {
  items =
      record {
        delivery_id = repeat 16 2;
        envelope = record {
          bytes = (delivery 2).canonical_bytes;
          envelope_id = repeat 16 3;
          expires_at = 900;
        };
      }
      ∷ [];
  next_cursor = some (repeat 16 1 ++ repeat 7 0 ++ 1 ∷ repeat 7 0 ++ 1 ∷ repeat 7 0 ++ 2 ∷ []);
  receive_binding = none;
}

polls : (poll_now clock plain_cbor 0 acknowledged (right (repeat 32 4)) poll).1 ≡ ok batch
unfolding poll_now poll_checks page_at acknowledge_now acknowledge_at default_checkpoint
    open_mailbox mailbox_index find same_binding Bytes-discrete write update_first any all filter
    decode_cursor maximum_sequence collect checked_add from_canonical_bytes from_validated
    to_be_bytes cursor_new batch_new check_items has_repeat Envelope.decode_canonical
    Envelope.decode_fields Envelope.encode_canonical Envelope.encoded Envelope.new array u16 u64
    byte_string require_array require_value decode_fixed all_zero
polls = refl

acknowledged_not_polled_example : All (IsNew (repeat 16 1 ∷ [])) batch.items
acknowledged_not_polled_example =
    acknowledged_not_polled clock plain_cbor 0 0 provider (right (repeat 32 5))
      (right (repeat 32 4)) acknowledgement poll batch acknowledges refl polls
