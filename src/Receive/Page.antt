-- ===== src/Receive/Page.antt =====
-- crates/session-transport/src/contract.rs: poll requests, delivered pages and sets of identifiers.
-- What binds a poll to its checkpoint is a parameter type here.
use session_chat.Prelude.{
  ℕ, List, [], ◌∷◌, Bool, ◌||◌, Option, none, ◌==◌, ltb, leb, if◌then◌else◌, any, length, is_empty,
  false, map, checked_add,
}
use session_chat.Prelude.Outcome.{Result, ok, err, ◌>>=◌, ◌>>◌, reject_if, ok_or}
use session_chat.Prelude.Bytes.{Bytes, same}
use session_chat.Transport.Contract.{
  TransportContractError, invalid_poll_request, invalid_acknowledgement_batch,
  invalid_receive_batch, expired_received_envelope, OperationBudget, CanonicalEnvelope,
  max_poll_envelopes, max_poll_encoded_bytes,
}

abbrev pub max_acknowledgement_ids : ℕ
max_acknowledgement_ids = 64

-- `ids[index + 1..].contains(id)` for some index.
unfoldable pub has_repeat : List Bytes → Bool
has_repeat [] = false
has_repeat (id ∷ ids) = any (same id) ids || has_repeat ids

-- `BoundedDeliveryIds::new`; the wrapper is its list.
unfoldable pub bounded_ids_new : List Bytes → Result TransportContractError (List Bytes)
bounded_ids_new ids =
    if is_empty ids || (ltb max_acknowledgement_ids (length ids) || has_repeat ids)
    then err invalid_acknowledgement_batch
    else ok ids

pub record ReceivedCanonicalEnvelope : Type 0 where
  pub delivery_id : Bytes
  pub envelope : CanonicalEnvelope

abbrev pub ids_of : List ReceivedCanonicalEnvelope → List Bytes
ids_of items = map (λ item. item.delivery_id) items

pub record PollRequest (Binding : Type 0) : Type 0 where
  pub cursor : Option Bytes
  pub receive_binding : Option Binding
  pub max_envelopes : ℕ
  pub max_encoded_bytes : ℕ
  pub wait : ℕ
  pub budget : OperationBudget

pub record ReceiveBatch (Binding : Type 0) : Type 0 where
  pub items : List ReceivedCanonicalEnvelope
  pub next_cursor : Option Bytes
  pub receive_binding : Option Binding

-- The loop over the items, from the bytes that were counted before.
unfoldable pub check_items :
    (maximum now : ℕ)
    → List ReceivedCanonicalEnvelope
    → ℕ
    → Result TransportContractError (Unit {0})
check_items maximum now [] counted = ok tt
check_items maximum now (item ∷ items) counted =
    reject_if (leb item.envelope.expires_at now) expired_received_envelope
    >> (ok_or (checked_add counted (length item.envelope.bytes)) invalid_receive_batch >>= λ total.
        reject_if (ltb maximum total) invalid_receive_batch >> check_items maximum now items total)

module _ {Binding : Type 0} where
  unfoldable pub poll_request_new :
      Option Bytes
      → (max_envelopes max_encoded_bytes wait : ℕ) → OperationBudget
      → Result TransportContractError (PollRequest Binding)
  poll_request_new cursor max_envelopes max_encoded_bytes wait budget =
      if max_envelopes == 0
        || (ltb max_poll_envelopes max_envelopes
            || (max_encoded_bytes == 0
                || (ltb max_poll_encoded_bytes max_encoded_bytes
                    || ltb budget.max_network_bytes max_encoded_bytes)))
      then err invalid_poll_request
      else ok (record {
        cursor = cursor;
        receive_binding = none;
        max_envelopes = max_envelopes;
        max_encoded_bytes = max_encoded_bytes;
        wait = wait;
        budget = budget;
      })

  unfoldable pub batch_new :
      List ReceivedCanonicalEnvelope
      → Option Bytes
      → PollRequest Binding
      → ℕ
      → Result TransportContractError (ReceiveBatch Binding)
  batch_new items next_cursor request now = do
    reject_if (ltb request.max_envelopes (length items)) invalid_receive_batch
    reject_if (has_repeat (ids_of items)) invalid_receive_batch
    check_items request.max_encoded_bytes now items 0
    ok (record {
      items = items;
      next_cursor = next_cursor;
      receive_binding = request.receive_binding;
    })
