-- ===== src/Admission/Addition.antt =====
-- crates/admission-capability/src/lib.rs: the MLS Add of an approved request, and the settlement of
-- the two reservations with it.
use session_chat.Prelude.{ℕ, Bool, Option, none, some, leb, is_none, if◌then◌else◌, ◌||◌, not}
use session_chat.Prelude.Outcome.{Result, ok, err, is_ok}
use session_chat.Protocol.Endpoint.{LocalWelcomeDepositEndpoint}
use session_chat.Registry.Types.{InvitationReservation}
use session_chat.Registry.Reserve
use session_chat.Registry.Reserve.{validate_reservation}
use session_chat.Admission.Types.{
  CapabilityAdmissionError, rejected, reservation_mismatch, ReplayReservation,
  ApprovedCapabilityAdmission, ValidatedKeyPackage,
}
use session_chat.Admission.Verify.{reservation_position, remove_reservation}
use session_chat.Admission.Approval.{Admission, is_stale, release_invitation, both}

-- The MLS group of crates/session-crypto-mls, an adapter of third-party code: `prepare_add`, what
-- `PreparedAddition::apply` does, and what the drop of a `PreparedAddition` does.
pub record Mls (Group Prepared Committed : Type 0) : Type 0 where
  pub prepare_add : Group → ValidatedKeyPackage → ℕ → Group × Option Prepared
  pub apply : Group → Prepared → Group × Option Committed
  pub clear : Group → Prepared → Group

pub record PreparedApprovedCapabilityAddition (Prepared : Type 0) : Type 0 where
  pub inner : Prepared
  pub replay_reservation : ReplayReservation
  pub invitation_reservation : InvitationReservation
  pub now : ℕ
  pub request_expires_at : ℕ
  pub response_endpoint : LocalWelcomeDepositEndpoint

pub record CommittedCapabilityJoin (Committed : Type 0) : Type 0 where
  pub committed : Committed
  pub response_endpoint : LocalWelcomeDepositEndpoint

pub record AppliedCapabilityJoinAwaitingDurability (Committed : Type 0) : Type 0 where
  pub committed : Committed
  pub response_endpoint : LocalWelcomeDepositEndpoint
  pub replay_reservation : ReplayReservation
  pub invitation_reservation : InvitationReservation
  pub applied_at : ℕ

-- The admission and the group, which a prepared addition borrows.
pub record Session (Group : Type 0) : Type 0 where
  pub admission : Admission
  pub group : Group

-- `registry.release` and `verifier.remove_reservation`, with both results ignored.
unfoldable pub release_both : Admission → InvitationReservation → ReplayReservation → ℕ → Admission
release_both a held r now = record {
  verifier = (remove_reservation a.verifier r).0;
  registry = (Reserve.release a.registry held now).0;
}

module _ {Group Prepared Committed : Type 0} (mls : Mls Group Prepared Committed) where
  -- `self.remove_reservation(&reservation)?; Err(Rejected)`
  abbrev pub refuse :
      {A : Type 0}
      → Session Group
      → ReplayReservation
      → Session Group × Result CapabilityAdmissionError A
  refuse x r = (
    record x {
      admission = record x.admission { verifier = (remove_reservation x.admission.verifier r).0 };
    },
    (if is_ok (remove_reservation x.admission.verifier r).1
        then err rejected
        else err reservation_mismatch),
  )

  unfoldable pub prepare_approved_add :
      Session Group
      → ApprovedCapabilityAdmission
      → ℕ
      → Session Group
        × Result CapabilityAdmissionError (PreparedApprovedCapabilityAddition Prepared)
  prepare_approved_add x p now =
      let held = p.invitation_reservation in
      let r = p.verified.opened.request in
      if is_none (reservation_position x.admission.verifier p.verified.reservation)
      then (
        record x { admission = release_invitation x.admission held now },
        err reservation_mismatch,
      )
      else if is_stale x.admission r held now
      then (
        record x { admission = release_both x.admission held p.verified.reservation now },
        err rejected,
      )
      else let (group, prepared) = mls.prepare_add x.group p.verified.validated now in
        elim prepared [
          | some inner ↦ (
            record x { group = group },
            ok (record {
              inner = inner;
              replay_reservation = p.verified.reservation;
              invitation_reservation = held;
              now = now;
              request_expires_at = r.request.expires_at;
              response_endpoint = r.response_endpoint;
            }),
          )
          | none ↦
              refuse (record { group = group; admission = release_invitation x.admission held now })
                p.verified.reservation
        ]

  -- `validate_before_apply` fails.
  abbrev pub is_invalid : Admission → PreparedApprovedCapabilityAddition Prepared → ℕ → Bool
  is_invalid a p now =
      leb p.request_expires_at now
      || (leb p.response_endpoint.expires_at now
          || not (is_ok (validate_reservation a.registry p.invitation_reservation now)))

  -- The drop of a prepared addition whose states are not preserved, at the time that it holds: with
  -- its inner addition, and after it was applied or refused.
  unfoldable pub drop_prepared :
      Session Group → PreparedApprovedCapabilityAddition Prepared → Session Group
  drop_prepared x p = record {
    group = mls.clear x.group p.inner;
    admission = release_both x.admission p.invitation_reservation p.replay_reservation p.now;
  }

  unfoldable pub drop_taken :
      Session Group → PreparedApprovedCapabilityAddition Prepared → Session Group
  drop_taken x p = record x {
    admission = release_both x.admission p.invitation_reservation p.replay_reservation p.now;
  }

  -- The consumption after the MLS apply. When it fails, the invitation's reservation is taken, and
  -- the drop releases the replay reservation alone.
  unfoldable pub consume :
      Session Group
      → PreparedApprovedCapabilityAddition Prepared
      → Committed
      → ℕ
      → Session Group × Result CapabilityAdmissionError (CommittedCapabilityJoin Committed)
  consume x p committed now =
      let (g, consumed) =
        Reserve.consume_after_membership x.admission.registry p.invitation_reservation now in
      elim consumed [
        | ok _ ↦ (
          record x { admission = record x.admission { registry = g } },
          ok (record { committed = committed; response_endpoint = p.response_endpoint }),
        )
        | err e ↦ (
          record x {
            admission = record {
              verifier = (remove_reservation x.admission.verifier p.replay_reservation).0;
              registry = g;
            };
          },
          err reservation_mismatch,
        )
      ]

  unfoldable pub apply :
      Session Group
      → PreparedApprovedCapabilityAddition Prepared
      → ℕ
      → Session Group × Result CapabilityAdmissionError (CommittedCapabilityJoin Committed)
  apply x p now =
      if is_invalid x.admission p now
      then (drop_prepared x (record p { now = now }), err rejected)
      else let (group, applied) = mls.apply x.group p.inner in
        elim applied [
          | none ↦ (drop_taken (record x { group = group }) (record p { now = now }), err rejected)
          | some committed ↦ consume (record x { group = group }) p committed now
        ]

  unfoldable pub apply_awaiting_durability :
      Session Group
      → PreparedApprovedCapabilityAddition Prepared
      → ℕ
      → Session Group
        × Result CapabilityAdmissionError (AppliedCapabilityJoinAwaitingDurability Committed)
  apply_awaiting_durability x p now =
      if is_invalid x.admission p now
      then (drop_prepared x (record p { now = now }), err rejected)
      else let (group, applied) = mls.apply x.group p.inner in
        elim applied [
          | none ↦ (drop_taken (record x { group = group }) (record p { now = now }), err rejected)
          | some committed ↦ (
            record x { group = group },
            ok (record {
              committed = committed;
              response_endpoint = p.response_endpoint;
              replay_reservation = p.replay_reservation;
              invitation_reservation = p.invitation_reservation;
              applied_at = now;
            }),
          )
        ]

-- The settlement, of the applied join or of what it leaves when its parts have gone to the owner.
module _ {Committed : Type 0} where
  unfoldable pub finalize_committed :
      Admission
      → AppliedCapabilityJoinAwaitingDurability Committed
      → Admission × Result CapabilityAdmissionError (Unit {0})
  finalize_committed a j =
      let (g, consumed) =
        Reserve.consume_after_membership a.registry j.invitation_reservation j.applied_at in
      elim consumed [
        | ok _ ↦ (record a { registry = g }, ok tt)
        | err e ↦ (record a { registry = g }, err reservation_mismatch)
      ]

  unfoldable pub release_proven_uncommitted :
      Admission
      → AppliedCapabilityJoinAwaitingDurability Committed
      → Admission × Result CapabilityAdmissionError (Unit {0})
  release_proven_uncommitted a j =
      let released = Reserve.release a.registry j.invitation_reservation j.applied_at in
      let removed = remove_reservation a.verifier j.replay_reservation in
      (record { verifier = removed.0; registry = released.0 }, both released.1 removed.1)
