-- ===== src/Receive/Leasing.antt =====
-- crates/transport-conformance/src/receive_owner.rs: leases of acknowledgement work.
use session_chat.Prelude.{
  ℕ, suc, List, [], Bool, false, ◌&&◌, ◌||◌, not, Option, none, some, ◌==◌, leb, if◌then◌else◌,
  is_none,
}
use session_chat.Prelude.Outcome.{Result, ok, err, reject_if}
use session_chat.Prelude.Bytes.{Bytes}
use session_chat.Receive.Binding.{CursorBindingV1, same_binding}
use session_chat.Receive.Commit.{copy_ids}
use session_chat.Receive.State.{
  ReceiveOwner, DeterministicReceiveStateErrorV1, failed, CommittedReceivePageV1, CommitEvidence,
  AcknowledgementLeaseV1, same_ids,
}

abbrev pub is_lease : ReceiveOwner → AcknowledgementLeaseV1 → Bool
is_lease o lease = elim o.leased [
  | none ↦ false
  | some expected ↦
      expected.identity == lease.identity
      && (same_binding expected.binding lease.binding
          && same_ids expected.delivery_ids lease.delivery_ids)
]

unfoldable pub validate_lease :
    ReceiveOwner → AcknowledgementLeaseV1 → Result DeterministicReceiveStateErrorV1 (Unit {0})
validate_lease o lease = reject_if (not (is_lease o lease)) failed

abbrev pub is_evidence : Option CommitEvidence → CommittedReceivePageV1 → List Bytes → Bool
is_evidence none committed ids = false
is_evidence (some e) committed ids =
    e.nonce == committed.nonce
    && (e.revision == committed.revision
        && (same_binding e.binding committed.binding && same_ids e.delivery_ids ids))

-- The recoverable work is that of the binding and the identifiers.
abbrev pub is_recoverable : ReceiveOwner → CursorBindingV1 → List Bytes → Bool
is_recoverable o binding ids = elim o.recoverable [
  | none ↦ false
  | some (kept, kept_ids) ↦ same_binding kept binding && same_ids kept_ids ids
]

abbrev pub ids_or_none : Option (List Bytes) → List Bytes
ids_or_none none = []
ids_or_none (some ids) = ids

-- The new lease of identifiers, which the owner keeps and gives out.
abbrev pub grant :
    ReceiveOwner
    → CursorBindingV1
    → List Bytes
    → ReceiveOwner × Result DeterministicReceiveStateErrorV1 (Option AcknowledgementLeaseV1)
grant o binding ids =
    let lease : AcknowledgementLeaseV1 = record {
      identity = o.allocations;
      binding = binding;
      delivery_ids = ids;
    } in
    (
      record o { allocations = suc o.allocations; valid_commit = none; leased = some lease },
      ok (some lease),
    )

unfoldable pub lease_acknowledgement :
    ReceiveOwner
    → CommittedReceivePageV1
    → ℕ
    → ReceiveOwner × Result DeterministicReceiveStateErrorV1 (Option AcknowledgementLeaseV1)
lease_acknowledgement o committed now =
    if not (o.owner == committed.owner)
      || (leb committed.binding.expires_at now
          || (not (
                is_evidence o.valid_commit committed (ids_or_none committed.acknowledgement_intent))
              || not (is_none o.leased)))
    then (o, err failed)
    else elim committed.acknowledgement_intent [
      | none ↦ (record o { valid_commit = none }, ok none)
      | some ids ↦
          if not (is_recoverable o committed.binding ids)
          then (record o { valid_commit = none }, err failed)
          else elim (copy_ids ids) [
            | err e ↦ (record o { valid_commit = none }, err e)
            | ok copied ↦ grant o committed.binding ids
          ]
    ]

unfoldable pub recover_acknowledgement :
    ReceiveOwner
    → CursorBindingV1
    → ℕ
    → ReceiveOwner × Result DeterministicReceiveStateErrorV1 (Option AcknowledgementLeaseV1)
recover_acknowledgement o binding now =
    if leb binding.expires_at now || not (is_none o.leased)
    then (o, err failed)
    else elim o.recoverable [
      | none ↦ (o, ok none)
      | some (kept, ids) ↦
          if same_binding kept binding
          then elim (copy_ids ids) [ err e ↦ (o, err e) | ok copied ↦ grant o kept ids ]
          else (o, ok none)
    ]

unfoldable pub accept_acknowledgement :
    ReceiveOwner
    → AcknowledgementLeaseV1
    → ReceiveOwner × Result DeterministicReceiveStateErrorV1 (Unit {0})
accept_acknowledgement o lease =
    if not (is_lease o lease) || not (is_recoverable o lease.binding lease.delivery_ids)
    then (o, err failed)
    else (record o { valid_commit = none; recoverable = none; leased = none }, ok tt)

unfoldable pub release_acknowledgement :
    ReceiveOwner
    → AcknowledgementLeaseV1
    → ReceiveOwner × Result DeterministicReceiveStateErrorV1 (Unit {0})
release_acknowledgement o lease =
    if not (is_lease o lease) then (o, err failed) else (record o { leased = none }, ok tt)
