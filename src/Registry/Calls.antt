-- ===== src/Registry/Calls.antt =====
-- The methods on `&mut self` of `InvitationRegistry` as one step function, and runs of them.
use session_chat.Prelude.{ℕ, List, [], ◌∷◌}
use session_chat.Prelude.Bytes.{Bytes}
use session_chat.Protocol.Cbor.{Cbor}
use session_chat.Protocol.Signature.{Ed25519}
use session_chat.Protocol.Claims.{CapabilityInvitationClaims}
use session_chat.Protocol.Invitation.{SignedCapabilityInvitation}
use session_chat.Protocol.InvitationV2.{SignedCapabilityInvitationV2}
use session_chat.Registry.Types.{InvitationRegistry, InvitationReservation}
use session_chat.Registry.Issue.{issue, issue_v2}
use session_chat.Registry.Reserve.{
  reserve_after_admission, reserve_v2_after_admission, release, consume_after_membership,
}

pub data Call : Type 0 where
  issues : CapabilityInvitationClaims → (signing_key : Bytes) → Call
  issues_v2 : SignedCapabilityInvitationV2 → Call
  reserves : SignedCapabilityInvitation → (join_request_id : Bytes) → Call
  reserves_v2 : SignedCapabilityInvitationV2 → (join_request_id : Bytes) → Call
  releases : InvitationReservation → Call
  consumes : InvitationReservation → Call

module _ (c : Cbor) (s : Ed25519) where
  -- A call at its time, with the registry that it leaves.
  unfoldable pub step : InvitationRegistry → ℕ × Call → InvitationRegistry
  step g (now, issues claims key) = (issue c s g claims key now).0
  step g (now, issues_v2 i) = (issue_v2 g i now).0
  step g (now, reserves i request) = (reserve_after_admission g i request now).0
  step g (now, reserves_v2 i request) = (reserve_v2_after_admission g i request now).0
  step g (now, releases v) = (release g v now).0
  step g (now, consumes v) = (consume_after_membership g v now).0

  unfoldable pub run : InvitationRegistry → List (ℕ × Call) → InvitationRegistry
  run g [] = g
  run g (call ∷ calls) = run (step g call) calls
