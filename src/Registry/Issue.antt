-- ===== src/Registry/Issue.antt =====
-- crates/session-core/src/lib.rs: policy, time checks, and the issue of invitations. A method on
-- `&mut self` returns the registry that it leaves beside its result. A validated or issued invitation
-- is the signed invitation that it wraps.
use Prim.Native.Nat.{ℕ, ◌-◌}
use session_chat.Prelude.{
  [], Bool, false, ◌&&◌, Option, none, some, ltb, leb, ◌==◌, if◌then◌else◌, saturating_add,
}
use session_chat.Prelude.Outcome.{Result, ok, err, ◌>>=◌, ◌>>◌, map_err}
use session_chat.Prelude.Bytes.{Bytes, same}
use session_chat.Prelude.Map.{lookup, insert, retain, count_values}
use session_chat.Protocol.Cbor.{Cbor}
use session_chat.Protocol.Signature.{Ed25519}
use session_chat.Protocol.Claims.{CapabilityInvitationClaims}
use session_chat.Protocol.Invitation
use session_chat.Protocol.Invitation.{SignedCapabilityInvitation}
use session_chat.Protocol.InvitationV2
use session_chat.Protocol.InvitationV2.{SignedCapabilityInvitationV2}
use session_chat.Registry.Types.{
  InvitationPolicy, available, InvitationSchema, v1, v2, is_schema, InvitationRecord,
  InvitationRegistry, InvitationLifecycleError, protocol, invalid_maximum_lifetime,
  invalid_capacity, issued_too_far_in_future, expired, lifetime_exceeds_policy,
  duplicate_invitation_id, capacity_exceeded,
}

unfoldable pub policy_new : ℕ → ℕ → ℕ → Result InvitationLifecycleError InvitationPolicy
policy_new lifetime skew live =
    if lifetime == 0
    then err invalid_maximum_lifetime
    else if live == 0
    then err invalid_capacity
    else ok
        (record { maximum_lifetime = lifetime; maximum_future_skew = skew; maximum_live = live })

-- `InvitationRegistry::new`
unfoldable pub new : InvitationPolicy → InvitationRegistry
new policy = record { policy = policy; records = [] }

unfoldable pub matches : InvitationRecord → SignedCapabilityInvitation → Bool
matches r i =
    is_schema r.schema v1
    && (r.expires_at == i.claims.expires_at
        && (same r.inviter_verifying_key i.inviter_verifying_key && same r.signature i.signature))

unfoldable pub matches_v2 : InvitationRecord → SignedCapabilityInvitationV2 → Bool
matches_v2 r i =
    is_schema r.schema v2
    && (r.expires_at == i.claims.base.expires_at
        && (same r.inviter_verifying_key i.inviter_verifying_key && same r.signature i.signature))

unfoldable pub validate_time_values :
    InvitationPolicy → ℕ → ℕ → ℕ → Result InvitationLifecycleError (Unit {0})
validate_time_values policy issued_at expires_at now =
    let latest_allowed = saturating_add now policy.maximum_future_skew in
    if ltb latest_allowed issued_at
    then err (issued_too_far_in_future issued_at latest_allowed)
    else if leb expires_at now
    then err (expired expires_at now)
    else if ltb policy.maximum_lifetime (expires_at - issued_at)
    then err (lifetime_exceeds_policy (expires_at - issued_at) policy.maximum_lifetime)
    else ok tt

-- `record.expires_at_unix_seconds > now_unix_seconds`
abbrev pub is_live : ℕ → InvitationRecord → Bool
is_live now r = ltb now r.expires_at

abbrev pub holds_live : ℕ → Option InvitationRecord → Bool
holds_live now none = false
holds_live now (some r) = is_live now r

unfoldable pub insert_record :
    InvitationRegistry
    → Bytes
    → InvitationRecord
    → ℕ
    → InvitationRegistry × Result InvitationLifecycleError (Unit {0})
insert_record g id fresh now =
    if holds_live now (lookup id g.records)
    then (g, err duplicate_invitation_id)
    else if leb g.policy.maximum_live (count_values (is_live now) g.records)
    then (g, err (capacity_exceeded g.policy.maximum_live))
    else (record g { records = insert id fresh (retain (is_live now) g.records) }, ok tt)

-- A record as it is first inserted.
abbrev pub fresh_record : InvitationSchema → ℕ → Bytes → Bytes → InvitationRecord
fresh_record schema expires_at key signature = record {
  schema = schema;
  expires_at = expires_at;
  inviter_verifying_key = key;
  signature = signature;
  lifecycle = available;
}

-- `self.insert_record(...)?; Ok(value)`
abbrev pub with_value {ℓ} :
    {A : Type ℓ}
    → A
    → InvitationRegistry × Result InvitationLifecycleError (Unit {0})
    → InvitationRegistry × Result InvitationLifecycleError A
with_value a (g, ok _) = (g, ok a)
with_value a (g, err e) = (g, err e)

unfoldable pub record_issued :
    InvitationRegistry
    → SignedCapabilityInvitation
    → ℕ
    → InvitationRegistry × Result InvitationLifecycleError SignedCapabilityInvitation
record_issued g i now =
    elim (validate_time_values g.policy i.claims.issued_at i.claims.expires_at now) [
      | err e ↦ (g, err e)
      | ok _ ↦ with_value i (
          insert_record g i.claims.invitation_id
            (fresh_record v1 i.claims.expires_at i.inviter_verifying_key i.signature) now)
    ]

unfoldable pub issue_v2 :
    InvitationRegistry
    → SignedCapabilityInvitationV2
    → ℕ
    → InvitationRegistry × Result InvitationLifecycleError SignedCapabilityInvitationV2
issue_v2 g i now =
    elim (validate_time_values g.policy i.claims.base.issued_at i.claims.base.expires_at now) [
      | err e ↦ (g, err e)
      | ok _ ↦ with_value i (
          insert_record g i.claims.base.invitation_id
            (fresh_record v2 i.claims.base.expires_at i.inviter_verifying_key i.signature) now)
    ]

module _ (c : Cbor) (s : Ed25519) where
  unfoldable pub issue :
      InvitationRegistry
      → CapabilityInvitationClaims
      → Bytes
      → ℕ
      → InvitationRegistry × Result InvitationLifecycleError SignedCapabilityInvitation
  issue g claims signing_key now = elim (Invitation.sign c s claims signing_key) [
    | err e ↦ (g, err (protocol e))
    | ok i ↦ record_issued g i now
  ]

  unfoldable pub validate_descriptor :
      InvitationRegistry → Bytes → ℕ → Result InvitationLifecycleError SignedCapabilityInvitation
  validate_descriptor g encoded now = do
    i ← map_err protocol (Invitation.decode_and_verify c s encoded)
    validate_time_values g.policy i.claims.issued_at i.claims.expires_at now
    ok i

  unfoldable pub validate_descriptor_v2 :
      InvitationRegistry → Bytes → ℕ → Result InvitationLifecycleError SignedCapabilityInvitationV2
  validate_descriptor_v2 g encoded now = do
    i ← map_err protocol (InvitationV2.decode_and_verify c s encoded)
    validate_time_values g.policy i.claims.base.issued_at i.claims.base.expires_at now
    ok i
