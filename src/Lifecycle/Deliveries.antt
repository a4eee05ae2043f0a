-- ===== src/Lifecycle/Deliveries.antt =====
-- crates/transport-conformance/src/lifecycle_provider.rs: the deposit, the poll and the acknowledgement
-- of the deterministic lifecycle provider.
use Prim.Native.Nat.{◌/◌, ◌%◌, max}
use session_chat.Prelude.{
  ℕ, suc, zero, ◌+◌, ◌*◌, ◌^◌, List, [], ◌∷◌, ◌++◌, map, Bool, true, false, ◌||◌, ◌&&◌, not, Option,
  none, some, ◌==◌, ltb, leb, if◌then◌else◌, find, update_first, filled, filter, any, all, length,
  take, drop, checked_add,
}
use session_chat.Prelude.Outcome.{Result, ok, err, ◌>>=◌, ◌>>◌, map_err, reject_if}
use session_chat.Prelude.Bytes.{Bytes, same}
use session_chat.Protocol.Cbor.{Cbor}
use session_chat.Transport.Contract.{
  TransportFailure, internal, policy_violation, idempotency_conflict, expired_envelope,
  envelope_too_large, queue_full, invalid_cursor, corrupt_remote_response, OperationBudget,
  DepositRequest, from_canonical_bytes, cursor_new,
}
use session_chat.Transport.Dispatch.{DispatchControl}
use session_chat.Transport.Mailbox.{from_provider_bytes}
use session_chat.Receive.Binding.{CursorBindingV1, same_binding}
use session_chat.Receive.Page.{ReceivedCanonicalEnvelope, PollRequest, ReceiveBatch, batch_new}
use session_chat.Receive.Checkpoint.{ReceivePollBindingV1}
use session_chat.Lifecycle.Provider.{
  DeterministicAuthorityV1, StoredDelivery, MailboxState, LifecycleProvider, refusal, is_of,
  open_mailbox,
}

pub record AcknowledgementRequest : Type 0 where
  pub delivery_ids : List Bytes
  pub budget : OperationBudget

-- `value.to_be_bytes()` in that many bytes, and `from_be_bytes` behind the bytes read before.
unfoldable pub to_be_bytes : ℕ → ℕ → Bytes
to_be_bytes zero value = []
to_be_bytes (suc n) value = (value / 256 ^ n) % 256 ∷ to_be_bytes n value

unfoldable pub from_be_bytes : ℕ → Bytes → ℕ
from_be_bytes value [] = value
from_be_bytes value (b ∷ bytes) = from_be_bytes (value * 256 + b) bytes

unfoldable pub delivery_id_of : ℕ → Bytes
delivery_id_of sequence = 209 ∷ filled 7 0 ++ to_be_bytes 8 sequence

unfoldable pub write : LifecycleProvider → CursorBindingV1 → List StoredDelivery → LifecycleProvider
write p binding deliveries = record p {
  mailboxes = update_first (is_of binding) (λ m. record m { deliveries = deliveries }) p.mailboxes;
}

-- The mailbox of a deposit, whose envelope has not expired.
abbrev pub deposit_mailbox :
    LifecycleProvider
    → DeterministicAuthorityV1
    → DepositRequest
    → ℕ
    → Result TransportFailure MailboxState
deposit_mailbox p a request now = open_mailbox p a (λ m. m.deposit) now >>= λ m.
    reject_if (leb request.envelope.expires_at now) (refusal expired_envelope) >>= λ _. ok m

-- A new delivery behind the second checkpoint.
unfoldable pub accept :
    LifecycleProvider
    → DeterministicAuthorityV1
    → DepositRequest
    → ℕ
    → LifecycleProvider × Result TransportFailure Bytes
accept p a request now = elim (deposit_mailbox p a request now) [
  | err f ↦ (p, err f)
  | ok m ↦
      if leb 64 (length m.deliveries)
      then (p, err (refusal queue_full))
      else elim (checked_add p.next_delivery_sequence 1) [
        | none ↦ (p, err (refusal queue_full))
        | some next ↦ elim (from_provider_bytes (delivery_id_of p.next_delivery_sequence)) [
          | none ↦ (p, err (refusal internal))
          | some delivery_id ↦ (
            record (write p a.binding (
                m.deliveries
                ++ record {
                  sequence = p.next_delivery_sequence;
                  delivery_id = delivery_id;
                  envelope_id = request.envelope.envelope_id;
                  canonical_bytes = request.envelope.bytes;
                  expires_at = request.envelope.expires_at;
                  acknowledged = false;
                }
                  ∷ [])) { next_delivery_sequence = next },
            ok delivery_id,
          )
        ]
      ]
]

-- A repeated deposit; its receipt is the delivery identifier.
abbrev pub existing_receipt : StoredDelivery → DepositRequest → Result TransportFailure Bytes
existing_receipt d request =
    if same d.canonical_bytes request.envelope.bytes
    then ok d.delivery_id
    else err (refusal idempotency_conflict)

abbrev pub cursor_scope : CursorBindingV1 → Bytes
cursor_scope b =
    b.continuity_id ++ to_be_bytes 8 b.generation ++ to_be_bytes 8 b.provider_state_epoch

unfoldable pub decode_cursor : Option Bytes → Bytes → Result TransportFailure ℕ
decode_cursor none token = ok 0
decode_cursor (some cursor) token =
    if not (length cursor == 40) || not (same (take 32 cursor) token)
    then err (refusal invalid_cursor)
    else if from_be_bytes 0 (drop 32 cursor) == 0
    then err (refusal invalid_cursor)
    else ok (from_be_bytes 0 (drop 32 cursor))

unfoldable pub maximum_sequence : List StoredDelivery → ℕ
maximum_sequence [] = 0
maximum_sequence (d ∷ []) = d.sequence
maximum_sequence (d ∷ e ∷ ds) = maximum_sequence (e ∷ ds)

abbrev pub is_due : ℕ → ℕ → StoredDelivery → Bool
is_due requested now d = ltb requested d.sequence && (not d.acknowledged && ltb now d.expires_at)

abbrev pub is_other_mailbox : Option ReceivePollBindingV1 → CursorBindingV1 → Bool
is_other_mailbox none binding = false
is_other_mailbox (some b) binding = not (same_binding b.binding binding)

-- The mailbox of a poll and the sequence number that its cursor has reached.
unfoldable pub poll_checks :
    LifecycleProvider
    → DeterministicAuthorityV1
    → PollRequest ReceivePollBindingV1
    → ℕ
    → Result TransportFailure ℕ
poll_checks p a request now = do
  m ← open_mailbox p a (λ m. m.receive) now
  reject_if (is_other_mailbox request.receive_binding a.binding) (refusal invalid_cursor)
  requested ← decode_cursor request.cursor (cursor_scope a.binding)
  reject_if (ltb (maximum_sequence m.deliveries) requested) (refusal invalid_cursor)
  ok requested

abbrev pub next_cursor : CursorBindingV1 → ℕ → Result TransportFailure (Option Bytes)
next_cursor binding last =
    if last == 0
    then ok none
    else map_err (λ _. refusal internal) (cursor_new (cursor_scope binding ++ to_be_bytes 8 last))
      >>= λ cursor. ok (some cursor)

module _ (c : Cbor) where
  -- The loop over the due deliveries, after so many items and encoded bytes, with the last sequence
  -- number so far.
  unfoldable pub collect :
      PollRequest ReceivePollBindingV1
      → List StoredDelivery
      → (items encoded last : ℕ) → Result TransportFailure (List ReceivedCanonicalEnvelope × ℕ)
  collect request [] items encoded last = ok ([], last)
  collect request (d ∷ ds) items encoded last =
      if leb request.max_envelopes items
      then ok ([], last)
      else elim (checked_add encoded (length d.canonical_bytes)) [
        | none ↦ err (refusal envelope_too_large)
        | some next ↦
            if ltb request.max_encoded_bytes next
            then (if items == 0 then err (refusal envelope_too_large) else ok ([], last))
            else elim (from_canonical_bytes c d.canonical_bytes) [
              | err _ ↦ err (refusal corrupt_remote_response)
              | ok envelope ↦ collect request ds (suc items) next d.sequence >>= λ rest.
                  ok (record { delivery_id = d.delivery_id; envelope = envelope } ∷ rest.0, rest.1)
            ]
      ]

  -- The page, behind the second checkpoint.
  unfoldable pub page_at :
      LifecycleProvider
      → DeterministicAuthorityV1
      → PollRequest ReceivePollBindingV1
      → (requested first final : ℕ) → Result TransportFailure (ReceiveBatch ReceivePollBindingV1)
  page_at p a request requested first final = do
    m ← open_mailbox p a (λ m. m.receive) final
    let now = max first final
    found ← collect request (filter (is_due requested now) m.deliveries) 0 0 requested
    cursor ← next_cursor a.binding found.1
    map_err (λ _. refusal corrupt_remote_response) (batch_new found.0 cursor request now)

-- Every identifier is that of a delivery, and the deliveries marked.
abbrev pub is_delivered : List StoredDelivery → Bytes → Bool
is_delivered ds id = any (λ d. same d.delivery_id id) ds

abbrev pub mark : List Bytes → StoredDelivery → StoredDelivery
mark ids d = if any (same d.delivery_id) ids then record d { acknowledged = true } else d

-- The acknowledgement behind the second checkpoint.
unfoldable pub acknowledge_at :
    LifecycleProvider
    → DeterministicAuthorityV1
    → AcknowledgementRequest
    → ℕ
    → LifecycleProvider × Result TransportFailure (Unit {0})
acknowledge_at p a request now = elim (open_mailbox p a (λ m. m.acknowledgement) now) [
  | err f ↦ (p, err f)
  | ok m ↦
      if all (is_delivered m.deliveries) request.delivery_ids
      then (write p a.binding (map (mark request.delivery_ids) m.deliveries), ok tt)
      else (p, err (refusal policy_violation))
]

module _ {K : Type 0} (control : DispatchControl K) where
  unfoldable pub deposit_now :
      K
      → LifecycleProvider
      → DeterministicAuthorityV1
      → DepositRequest
      → K × LifecycleProvider × Result TransportFailure Bytes
  deposit_now k p a request =
      let (k1, first) = control.checkpoint request.budget k in
      elim first [
        | err f ↦ (k1, p, err f)
        | ok o ↦ elim (deposit_mailbox p a request o.wall_now) [
          | err f ↦ (k1, p, err f)
          | ok m ↦ elim (find (λ d. same d.envelope_id request.envelope.envelope_id) m.deliveries) [
            | some d ↦ (k1, p, existing_receipt d request)
            | none ↦
                let (k2, final) = control.checkpoint request.budget k1 in
                elim final [
                  | err f ↦ (k2, p, err f)
                  | ok o' ↦ let (p', result) = accept p a request o'.wall_now in (k2, p', result)
                ]
          ]
        ]
      ]

  -- A poll leaves the provider as it was.
  unfoldable pub poll_now :
      Cbor
      → K
      → LifecycleProvider
      → DeterministicAuthorityV1
      → PollRequest ReceivePollBindingV1
      → K × Result TransportFailure (ReceiveBatch ReceivePollBindingV1)
  poll_now c k p a request =
      let (k1, first) = control.checkpoint request.budget k in
      elim first [
        | err f ↦ (k1, err f)
        | ok o ↦ elim (poll_checks p a request o.wall_now) [
          | err f ↦ (k1, err f)
          | ok requested ↦
              let (k2, final) = control.checkpoint request.budget k1 in
              elim final [
                | err f ↦ (k2, err f)
                | ok o' ↦ (k2, page_at c p a request requested o.wall_now o'.wall_now)
              ]
        ]
      ]

  unfoldable pub acknowledge_now :
      K
      → LifecycleProvider
      → DeterministicAuthorityV1
      → AcknowledgementRequest
      → K × LifecycleProvider × Result TransportFailure (Unit {0})
  acknowledge_now k p a request =
      let (k1, first) = control.checkpoint request.budget k in
      elim first [
        | err f ↦ (k1, p, err f)
        | ok o ↦ elim (open_mailbox p a (λ m. m.acknowledgement) o.wall_now) [
          | err f ↦ (k1, p, err f)
          | ok m ↦
              let (k2, final) = control.checkpoint request.budget k1 in
              elim final [
                | err f ↦ (k2, p, err f)
                | ok o' ↦
                    let (p', result) = acknowledge_at p a request o'.wall_now in (k2, p', result)
              ]
        ]
      ]
