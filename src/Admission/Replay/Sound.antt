-- ===== src/Admission/Replay/Sound.antt =====
-- The invariant of the replay state.
use session_chat.Prelude.{
  ℕ, ◌+◌, ◌≤◌, ◌<◌, ◌≡◌, refl, List, [], ◌∷◌, Option, false, ◌&&◌, arith, All, any, length,
  length-append, length-filter, length-remove_at-le, filter, count, checked_add-eq_some, inl, inr,
  Option-cases,
}
use session_chat.Prelude.Outcome.{ok, Result-cases}
use session_chat.Prelude.Bytes.{Bytes}
use session_chat.Protocol.JoinRequest.{CapabilityJoinRequest}
use session_chat.Protection.Requests.{OpenedCapabilityJoinRequest}
use session_chat.Admission.Types.{
  CapabilityAdmissionPolicy, CapabilityAdmissionVerifier, PendingReplay, ReplayReservation,
  ValidatedKeyPackage, new,
}
use session_chat.Admission.Verify.{
  verify_checks, verify_and_reserve, remove_reservation, reservation_position, is_live, clashes,
  entry_of, generation_of,
}
use session_chat.Admission.Addition.{Mls, Session}
use session_chat.Admission.Calls.{
  Call, verifies, releases, reserves, decides, prepares, drops, applies, applies_durably, finalizes,
  recovers, run,
}
use session_chat.Admission.Replay.Lists.{
  Apart, All-filter, All-remove_at, All-snoc, Apart-filter, Apart-remove_at, Apart-snoc,
  live-Disjoint,
}
use session_chat.Admission.Replay.Steps.{Removes, run_keeps}

-- No more entries than the policy allows; identifiers below the next one; no two entries with one
-- identifier, or with one request identifier or nonce in one generation.
pub record IsSound (policy : CapabilityAdmissionPolicy) (v : CapabilityAdmissionVerifier)
    : Type 0 where
  pub same_policy : v.policy ≡ policy
  pub within : length v.pending ≤ policy.maximum_pending_requests
  pub below : All (λ e. e.reservation_id < v.next_reservation_id) v.pending
  pub apart : Apart v.pending

All-weaken :
    (m n : ℕ) (xs : List PendingReplay)
    → m ≤ n
    → All (λ e. e.reservation_id < m) xs
    → All (λ e. e.reservation_id < n) xs
All-weaken m n [] le h = tt
All-weaken m n (x ∷ xs) le h = (omega (arith, h.0), All-weaken m n xs le h.1)

remove_reservation-IsSound :
    (policy : CapabilityAdmissionPolicy) (v : CapabilityAdmissionVerifier) (r : ReplayReservation)
    → IsSound policy v
    → IsSound policy (remove_reservation v r).0
unfolding remove_reservation
remove_reservation-IsSound policy v r h = elim (Option-cases (reservation_position v r)) [
  | inl q ↦ rw (q, remove_reservation) h
  | inr (n, q) ↦
      rw (q, remove_reservation)
        (record {
          same_policy = h.same_policy;
          within = omega (arith, h.within, length-remove_at-le n v.pending);
          below = All-remove_at (λ e. e.reservation_id < v.next_reservation_id) n v.pending h.below;
          apart = Apart-remove_at n v.pending h.apart;
        })
]

module _ (validate : Bytes → ℕ → Option ValidatedKeyPackage) where
  -- What a successful verification has checked of the verifier's state.
  verify_checks-room :
      (v : CapabilityAdmissionVerifier) (r : CapabilityJoinRequest) (now next : ℕ)
      (k : ValidatedKeyPackage)
      → verify_checks validate v r now ≡ ok (k, next)
      → (next ≡ v.next_reservation_id + 1)
        × (count (is_live now) v.pending < v.policy.maximum_pending_requests)
        × (any
              (λ e.
                is_live now e
                && clashes (generation_of r) r.request.join_request_id r.request.request_nonce e)
              v.pending
            ≡ false)
  unfolding verify_checks
  verify_checks-room v r now next k e = grind (arith, checked_add-eq_some)

  verify_and_reserve-IsSound :
      (policy : CapabilityAdmissionPolicy) (v : CapabilityAdmissionVerifier)
      (opened : OpenedCapabilityJoinRequest) (now : ℕ)
      → IsSound policy v
      → IsSound policy (verify_and_reserve validate v opened now).0
  unfolding verify_and_reserve
  verify_and_reserve-IsSound policy v opened now h =
      elim (Result-cases (verify_checks validate v opened.request now)) [
        | inl (e, q) ↦ rw (q, verify_and_reserve) h
        | inr ((k, next), q) ↦
            let room = verify_checks-room v opened.request now next k q in
            let fresh = entry_of opened.request v.next_reservation_id in
            rw (q, verify_and_reserve)
              (record {
                same_policy = h.same_policy;
                within = grind (
                  arith,
                  length-append (filter (is_live now) v.pending) (fresh ∷ []),
                  h.same_policy,
                  length-filter (is_live now) v.pending,
                );
                below = rw (room.0) (
                    All-snoc _ (filter (is_live now) v.pending) fresh
                      (All-weaken _ _ _ (omega arith)
                        (All-filter _ (is_live now) v.pending h.below))
                      (omega arith));
                apart =
                    Apart-snoc (filter (is_live now) v.pending) fresh
                      (Apart-filter (is_live now) v.pending h.apart)
                      (live-Disjoint now v.next_reservation_id fresh v.pending h.below refl room.2);
              })
      ]

any_removal :
    {Prepared Committed : Type 0} (call : Call Prepared Committed) → Removes (λ r. Unit) call
any_removal (verifies opened) = tt
any_removal (releases v) = tt
any_removal (reserves i v) = tt
any_removal (decides p decision) = tt
any_removal (prepares p) = tt
any_removal (drops p) = tt
any_removal (applies p) = tt
any_removal (applies_durably p) = tt
any_removal (finalizes j) = tt
any_removal (recovers j) = tt

module _ (validate : Bytes → ℕ → Option ValidatedKeyPackage) {Group Prepared Committed : Type 0}
    (mls : Mls Group Prepared Committed) where
  All-allowed :
      (calls : List (ℕ × Call Prepared Committed))
      → All (λ call. Unit {0} × Removes (λ r. Unit {0}) call.1) calls
  All-allowed [] = tt
  All-allowed (call ∷ calls) = ((tt, any_removal call.1), All-allowed calls)

  -- After any calls at any times, whatever their arguments, a verifier that started empty holds at
  -- most `maximum_pending_requests` entries, with distinct identifiers below the next one, and no
  -- two of one generation share a request identifier or a nonce.
  pub run-new-IsSound :
      (x : Session Group) (policy : CapabilityAdmissionPolicy)
      (calls : List (ℕ × Call Prepared Committed))
      → x.admission.verifier ≡ new policy
      → IsSound policy (run validate mls x calls).admission.verifier
  unfolding new
  run-new-IsSound x policy calls start =
      run_keeps validate mls (IsSound policy) (λ r. Unit) (λ now. Unit)
        (λ v r allowed. remove_reservation-IsSound policy v r)
        (λ v opened now allowed. verify_and_reserve-IsSound validate policy v opened now) x calls
        (All-allowed calls) (rw (start) (ground arith))
