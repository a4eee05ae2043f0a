-- ===== src/Admission/Rejected.antt =====
-- A request that is verified, reserved and then rejected, or dropped, leaves no trace.
use session_chat.Prelude.{
  ℕ, ◌<◌, ◌≡◌, refl, inl, inr, List, [], ◌∷◌, ◌++◌, Option, some, arith, All, filter, position,
  remove_at, length,
}
use session_chat.Prelude.Outcome.{ok, Result-cases}
use session_chat.Prelude.Bytes.{Bytes}
use session_chat.Protocol.JoinRequest.{CapabilityJoinRequest}
use session_chat.Protocol.InvitationV2.{SignedCapabilityInvitationV2}
use session_chat.Protection.Requests.{OpenedCapabilityJoinRequest}
use session_chat.Admission.Contract.{reject}
use session_chat.Admission.Types.{
  CapabilityAdmissionPolicy, CapabilityAdmissionVerifier, PendingReplay, ValidatedKeyPackage,
  VerifiedCapabilityAdmission, PendingCapabilityApproval, was_rejected,
}
use session_chat.Admission.Verify.{
  verify_checks, verify_and_reserve, reservation_position, remove_reservation, is_live, is_entry_of,
  entry_of, reservation_of, release,
}
use session_chat.Admission.Approval.{Admission, reserve_v2_for_approval, decide_v2}
use session_chat.Admission.Replay.Lists.{All-filter}
use session_chat.Admission.Replay.Sound.{IsSound}
use session_chat.Admission.Settled.{reject-reserve}

module _ (r : CapabilityJoinRequest) (id : ℕ) where
  -- The newest entry is found behind older ones, and its removal gives them back.
  position-snoc :
      (xs : List PendingReplay)
      → All (λ e. e.reservation_id < id) xs
      → position (is_entry_of (reservation_of r id)) (xs ++ entry_of r id ∷ []) ≡ some (length xs)
  unfolding position
  position-snoc [] h = ground arith
  position-snoc (x ∷ xs) h = ground (arith, position-snoc xs)

remove_at-snoc : {A : Type 0} (xs : List A) (y : A) → remove_at (length xs) (xs ++ y ∷ []) ≡ xs
unfolding remove_at
remove_at-snoc [] y = refl
remove_at-snoc (x ∷ xs) y = cc (remove_at-snoc xs y)

module _ (validate : Bytes → ℕ → Option ValidatedKeyPackage)
    (policy : CapabilityAdmissionPolicy) where
  -- From a sound replay state, the release of an admitted request succeeds, and of the pending
  -- requests leaves those that were live when it was verified.
  pub release-verify :
      (v : CapabilityAdmissionVerifier) (opened : OpenedCapabilityJoinRequest) (now : ℕ)
      (admitted : VerifiedCapabilityAdmission)
      → IsSound policy v
      → (verify_and_reserve validate v opened now).1 ≡ ok admitted
      → let result = release (verify_and_reserve validate v opened now).0 admitted in
        (result.1 ≡ ok tt) × (result.0.pending ≡ filter (is_live now) v.pending)
  unfolding verify_and_reserve release remove_reservation reservation_position
  release-verify v opened now admitted h e =
      elim (Result-cases (verify_checks validate v opened.request now)) [
        | inl (f, q) ↦ absurd (ground (arith, q))
        | inr ((k, next), q) ↦
            let live = filter (is_live now) v.pending in
            let id = v.next_reservation_id in
            ground (
              arith,
              q,
              position-snoc opened.request id live (All-filter _ (is_live now) v.pending h.below),
              remove_at-snoc live (entry_of opened.request id),
            )
      ]

  -- From a sound replay state, a request that is verified, reserved for approval and rejected before
  -- the invitation expires leaves the registry as it was, and of the pending requests those that
  -- were live when it was verified.
  pub reject-verify :
      (a : Admission) (i : SignedCapabilityInvitationV2) (opened : OpenedCapabilityJoinRequest)
      (now later last : ℕ) (admitted : VerifiedCapabilityAdmission) (p : PendingCapabilityApproval)
      → IsSound policy a.verifier
      → (verify_and_reserve validate a.verifier opened now).1 ≡ ok admitted
      → let b = record a { verifier = (verify_and_reserve validate a.verifier opened now).0 } in
        (reserve_v2_for_approval b i admitted later).1 ≡ ok p
        → last < i.claims.base.expires_at
        → let result = decide_v2 (reserve_v2_for_approval b i admitted later).0 p reject last in
          (result.1 ≡ ok was_rejected)
          × (result.0.registry ≡ a.registry)
          × (result.0.verifier.pending ≡ filter (is_live now) a.verifier.pending)
  unfolding release
  reject-verify a i opened now later last admitted p h made granted live =
      let b = record a { verifier = (verify_and_reserve validate a.verifier opened now).0 } in
      ground (
        arith,
        reject-reserve b i admitted p later last granted live,
        release-verify a.verifier opened now admitted h made,
      )
