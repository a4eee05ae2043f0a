-- ===== src/Registry/Reserve.antt =====
-- crates/session-core/src/lib.rs: reservation of an invitation, and what ends it.
use Prim.Native.Nat.{ℕ}
use session_chat.Prelude.{◌||◌, length, Bool, not, Option, leb, if◌then◌else◌}
use session_chat.Prelude.Outcome.{Result, ok, err, ◌>>=◌, ◌>>◌, reject_if, ok_or}
use session_chat.Prelude.Bytes.{Bytes, same, all_zero}
use session_chat.Prelude.Map.{lookup, replace}
use session_chat.Protocol.Invitation.{SignedCapabilityInvitation}
use session_chat.Protocol.InvitationV2.{SignedCapabilityInvitationV2}
use session_chat.Registry.Issue.{matches, matches_v2, validate_time_values}
use mathlib.Core.Option
use session_chat.Registry.Types.{
  InvitationLifecycle, is_available, is_reserved, is_consumed, StoredInvitationLifecycle, available,
  reserved, consumed, InvitationSchema, v1, v2, is_schema, InvitationReservation, InvitationRecord,
  InvitationRegistry, InvitationLifecycleError, expired, unknown_invitation, descriptor_mismatch,
  zero_join_request_id, already_reserved, already_consumed, reservation_mismatch, not_reserved,
}

abbrev pub require_available :
    StoredInvitationLifecycle → Result InvitationLifecycleError (Unit {0})
require_available available = ok tt
require_available (reserved id) = err already_reserved
require_available consumed = err already_consumed

unfoldable pub reserve_checks :
    InvitationRegistry
    → (InvitationRecord → Bool)
    → (invitation_id join_request_id : Bytes) → (issued_at expires_at now : ℕ)
    → Result InvitationLifecycleError InvitationRecord
reserve_checks g is_issued id request issued_at expires_at now = do
  reject_if (all_zero request) zero_join_request_id
  validate_time_values g.policy issued_at expires_at now
  r ← ok_or (lookup id g.records) unknown_invitation
  reject_if (not (is_issued r)) descriptor_mismatch
  require_available r.lifecycle
  ok r

-- The body that the two reservation methods share, over the test for the issued descriptor.
unfoldable pub reserve :
    InvitationRegistry
    → InvitationSchema
    → (InvitationRecord → Bool)
    → (invitation_id join_request_id : Bytes) → (issued_at expires_at now : ℕ)
    → InvitationRegistry × Result InvitationLifecycleError InvitationReservation
reserve g schema is_issued id request issued_at expires_at now =
    elim (reserve_checks g is_issued id request issued_at expires_at now) [
      | err e ↦ (g, err e)
      | ok r ↦ (
        record g { records = replace id (record r { lifecycle = reserved request }) g.records },
        ok (record {
          invitation_id = id;
          join_request_id = request;
          record_signature = r.signature;
          schema = schema;
        }),
      )
    ]

unfoldable pub reserve_after_admission :
    InvitationRegistry
    → SignedCapabilityInvitation
    → Bytes
    → ℕ
    → InvitationRegistry × Result InvitationLifecycleError InvitationReservation
reserve_after_admission g i request now =
    reserve g v1 (λ r. matches r i) i.claims.invitation_id request i.claims.issued_at
      i.claims.expires_at now

unfoldable pub reserve_v2_after_admission :
    InvitationRegistry
    → SignedCapabilityInvitationV2
    → Bytes
    → ℕ
    → InvitationRegistry × Result InvitationLifecycleError InvitationReservation
reserve_v2_after_admission g i request now =
    reserve g v2 (λ r. matches_v2 r i) i.claims.base.invitation_id request i.claims.base.issued_at
      i.claims.base.expires_at now

unfoldable pub current_record :
    InvitationRegistry → Bytes → ℕ → Result InvitationLifecycleError InvitationRecord
current_record g id now = do
  r ← ok_or (lookup id g.records) unknown_invitation
  reject_if (leb r.expires_at now) (expired r.expires_at now)
  ok r

abbrev pub is_foreign : InvitationRecord → InvitationReservation → Bool
is_foreign r v = not (is_schema r.schema v.schema) || not (same r.signature v.record_signature)

abbrev pub require_reserved :
    StoredInvitationLifecycle → Bytes → Result InvitationLifecycleError (Unit {0})
require_reserved (reserved id) request = if same id request then ok tt else err reservation_mismatch
require_reserved available request = err not_reserved
require_reserved consumed request = err already_consumed

unfoldable pub settle_checks :
    InvitationRegistry
    → InvitationReservation
    → ℕ
    → Result InvitationLifecycleError InvitationRecord
settle_checks g v now = do
  r ← current_record g v.invitation_id now
  reject_if (is_foreign r v) reservation_mismatch
  require_reserved r.lifecycle v.join_request_id
  ok r

-- `release` and `consume_after_membership` check the same things and set another lifecycle.
unfoldable pub settle :
    StoredInvitationLifecycle
    → InvitationRegistry
    → InvitationReservation
    → ℕ
    → InvitationRegistry × Result InvitationLifecycleError (Unit {0})
settle lifecycle g v now = elim (settle_checks g v now) [
  | err e ↦ (g, err e)
  | ok r ↦ (
    record g { records = replace v.invitation_id (record r { lifecycle = lifecycle }) g.records },
    ok tt,
  )
]

unfoldable pub release :
    InvitationRegistry
    → InvitationReservation
    → ℕ
    → InvitationRegistry × Result InvitationLifecycleError (Unit {0})
release = settle available

unfoldable pub consume_after_membership :
    InvitationRegistry
    → InvitationReservation
    → ℕ
    → InvitationRegistry × Result InvitationLifecycleError (Unit {0})
consume_after_membership = settle consumed

unfoldable pub validate_reservation :
    InvitationRegistry → InvitationReservation → ℕ → Result InvitationLifecycleError (Unit {0})
validate_reservation g v now = do
  r ← ok_or (lookup v.invitation_id g.records) unknown_invitation
  reject_if (leb r.expires_at now) (expired r.expires_at now)
  reject_if (not (is_schema r.schema v.schema) || not (same r.signature v.record_signature))
      reservation_mismatch
  require_reserved r.lifecycle v.join_request_id

abbrev pub lifecycle_view : StoredInvitationLifecycle → InvitationLifecycle
lifecycle_view available = is_available
lifecycle_view (reserved id) = is_reserved
lifecycle_view consumed = is_consumed

unfoldable pub lifecycle : InvitationRegistry → Bytes → Option InvitationLifecycle
lifecycle g id = Option.map (λ r. lifecycle_view r.lifecycle) (lookup id g.records)

unfoldable pub record_count : InvitationRegistry → ℕ
record_count g = length g.records
