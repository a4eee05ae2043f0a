-- ===== src/Admission/Replay/Once.antt =====
-- A request that was admitted is not admitted again while it is pending.
use session_chat.Prelude.{
  ℕ, ◌<◌, ◌≡◌, ◌≢◌, sym, ◌⊎◌, inl, inr, zero, suc, List, [], ◌∷◌, ◌++◌, Option, some, Bool, true,
  false, ◌&&◌, arith, All, any, filter, position, remove_at, Option-cases,
}
use session_chat.Prelude.Outcome.{ok, Result-cases, is_ok}
use session_chat.Prelude.Bytes.{Bytes}
use session_chat.Protocol.JoinRequest.{CapabilityJoinRequest}
use session_chat.Protection.Requests.{OpenedCapabilityJoinRequest}
use session_chat.Admission.Types.{
  CapabilityAdmissionVerifier, PendingReplay, ReplayReservation, ValidatedKeyPackage,
  VerifiedCapabilityAdmission,
}
use session_chat.Admission.Verify.{
  verify_checks, verify_and_reserve, remove_reservation, reservation_position, is_live, clashes,
  entry_of, reservation_of, generation_of, is_entry_of,
}
use session_chat.Admission.Addition.{Mls, Session}
use session_chat.Admission.Calls.{Call, verifies, step, run}
use session_chat.Admission.Replay.Steps.{Removes, run_keeps}

-- The entry is in the list.
abbrev pub Holds : PendingReplay → List PendingReplay → Type 0
Holds e [] = ⊥
Holds e (x ∷ xs) = (x ≡ e) ⊎ Holds e xs

Holds-snoc : (e : PendingReplay) (xs : List PendingReplay) → Holds e (xs ++ e ∷ [])
Holds-snoc e [] = ground arith
Holds-snoc e (x ∷ xs) = inr (Holds-snoc e xs)

Holds-append : (e f : PendingReplay) (xs : List PendingReplay) → Holds e xs → Holds e (xs ++ f ∷ [])
Holds-append e f [] h = absurd h
Holds-append e f (x ∷ xs) (inl p) = inl p
Holds-append e f (x ∷ xs) (inr h) = inr (Holds-append e f xs h)

Holds-filter :
    (p : PendingReplay → Bool) (e : PendingReplay) (xs : List PendingReplay)
    → p e ≡ true
    → Holds e xs
    → Holds e (filter p xs)
unfolding filter
Holds-filter p e [] t h = absurd h
Holds-filter p e (x ∷ xs) t h = ground (arith, Holds-filter p e xs)

-- The removal of the first entry that a test finds spares one that fails it.
Holds-remove_at :
    (p : PendingReplay → Bool) (e : PendingReplay) (xs : List PendingReplay) (n : ℕ)
    → p e ≡ false
    → position p xs ≡ some n
    → Holds e xs
    → Holds e (remove_at n xs)
unfolding position remove_at
Holds-remove_at p e [] n f found h = absurd h
Holds-remove_at p e (x ∷ xs) zero f found h = ground arith
Holds-remove_at p e (x ∷ xs) (suc n) f found h = ground (arith, Holds-remove_at p e xs n)

any-Holds :
    (p : PendingReplay → Bool) (e : PendingReplay) (xs : List PendingReplay)
    → p e ≡ true
    → Holds e xs
    → any p xs ≡ true
unfolding any
any-Holds p e [] t h = absurd h
any-Holds p e (x ∷ xs) t h = ground (arith, any-Holds p e xs)

repeated-clashes :
    (r s : CapabilityJoinRequest) (id : ℕ)
    → generation_of s ≡ generation_of r
    → (s.request.join_request_id ≡ r.request.join_request_id)
      ⊎ (s.request.request_nonce ≡ r.request.request_nonce)
    → clashes (generation_of s) s.request.join_request_id s.request.request_nonce (entry_of r id)
      ≡ true
repeated-clashes r s id generation repeats = ground arith

module _ (r : CapabilityJoinRequest) (id : ℕ) where
  other_reservation :
      (o : ReplayReservation) → o ≢ reservation_of r id → is_entry_of o (entry_of r id) ≡ false
  other_reservation o other = ground arith

  removal_keeps :
      (v : CapabilityAdmissionVerifier) (o : ReplayReservation)
      → o ≢ reservation_of r id
      → Holds (entry_of r id) v.pending
      → Holds (entry_of r id) (remove_reservation v o).0.pending
  unfolding remove_reservation reservation_position
  removal_keeps v o other h = elim (Option-cases (position (is_entry_of o) v.pending)) [
    | inl q ↦ ground (arith, q)
    | inr (n, q) ↦ ground (
      arith,
      q,
      Holds-remove_at (is_entry_of o) (entry_of r id) v.pending n (other_reservation o other) q h,
    )
  ]

module _ (validate : Bytes → ℕ → Option ValidatedKeyPackage) where
  verification_keeps :
      (e : PendingReplay) (v : CapabilityAdmissionVerifier) (opened : OpenedCapabilityJoinRequest)
      (now : ℕ)
      → now < e.expires_at
      → Holds e v.pending
      → Holds e (verify_and_reserve validate v opened now).0.pending
  unfolding verify_and_reserve
  verification_keeps e v opened now live h =
      elim (Result-cases (verify_checks validate v opened.request now)) [
        | inl (f, q) ↦ rw (q, verify_and_reserve) h
        | inr ((k, next), q) ↦
            rw (q, verify_and_reserve)
              (Holds-append e _ (filter (is_live now) v.pending)
                (Holds-filter (is_live now) e v.pending (ground arith) h))
      ]

  admitted-Holds :
      (v : CapabilityAdmissionVerifier) (opened : OpenedCapabilityJoinRequest) (now : ℕ)
      (admitted : VerifiedCapabilityAdmission)
      → (verify_and_reserve validate v opened now).1 ≡ ok admitted
      → (admitted.reservation ≡ reservation_of opened.request v.next_reservation_id)
        × Holds
            (entry_of opened.request v.next_reservation_id)
            (verify_and_reserve validate v opened now).0.pending
  unfolding verify_and_reserve
  admitted-Holds v opened now admitted e = grind (arith, Holds-snoc)

  -- A request that clashes with a live entry fails every verification.
  refuses_clash :
      (e : PendingReplay) (v : CapabilityAdmissionVerifier) (r : CapabilityJoinRequest) (now : ℕ)
      → Holds e v.pending
      → now < e.expires_at
      → clashes (generation_of r) r.request.join_request_id r.request.request_nonce e ≡ true
      → is_ok (verify_checks validate v r now) ≡ false
  unfolding verify_checks
  refuses_clash e v r now held live clash = ground (
    arith,
    any-Holds
        (λ f.
          is_live now f
          && clashes (generation_of r) r.request.join_request_id r.request.request_nonce f)
        e v.pending,
  )

module _ (validate : Bytes → ℕ → Option ValidatedKeyPackage) {Group Prepared Committed : Type 0}
    (mls : Mls Group Prepared Committed) where
  -- After a request was admitted, and any calls before its expiry that do not remove its own
  -- reservation, each request of its generation that repeats its request identifier or its nonce is
  -- refused before that expiry, and the refusal leaves the verifier as it was.
  pub refused_while_pending :
      (x : Session Group) (opened again : OpenedCapabilityJoinRequest) (now later : ℕ)
      (admitted : VerifiedCapabilityAdmission) (calls : List (ℕ × Call Prepared Committed))
      → (verify_and_reserve validate x.admission.verifier opened now).1 ≡ ok admitted
      → All
          (λ call.
            (call.0 < opened.request.request.expires_at)
            × Removes (λ r. r ≢ admitted.reservation) call.1)
          calls
      → later < opened.request.request.expires_at
      → generation_of again.request ≡ generation_of opened.request
      → (again.request.request.join_request_id ≡ opened.request.request.join_request_id)
        ⊎ (again.request.request.request_nonce ≡ opened.request.request.request_nonce)
      → let v =
          (run validate mls
            (step validate mls x (now, verifies opened))
            calls).admission.verifier in
        ((verify_and_reserve validate v again later).0 ≡ v)
        × (is_ok (verify_and_reserve validate v again later).1 ≡ false)
  unfolding verify_and_reserve step
  refused_while_pending x opened again now later admitted calls made quiet live generation repeats =
      elim (Result-cases (verify_checks validate v again.request later)) [
        | inl (e, q) ↦ ground (arith, q)
        | inr (k, q) ↦ absurd (ground (arith, q, refused))
      ]
    where
      first : PendingReplay
      first = entry_of opened.request x.admission.verifier.next_reservation_id

      v : CapabilityAdmissionVerifier
      v = (run validate mls (step validate mls x (now, verifies opened)) calls).admission.verifier

      held : Holds first v.pending
      held =
          let start = admitted-Holds validate x.admission.verifier opened now admitted made in
          run_keeps validate mls (λ w. Holds first w.pending) (λ r. r ≢ admitted.reservation)
            (λ t. t < opened.request.request.expires_at)
            (λ w o other. removal_keeps opened.request _ w o (rw (sym start.0) other))
            (λ w o t. verification_keeps validate first w o t)
            (step validate mls x (now, verifies opened)) calls quiet start.1

      refused : is_ok (verify_checks validate v again.request later) ≡ false
      refused = refuses_clash validate first v again.request later held live (
          repeated-clashes opened.request again.request x.admission.verifier.next_reservation_id
            generation repeats)
