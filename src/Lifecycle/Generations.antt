-- ===== src/Lifecycle/Generations.antt =====
-- crates/transport-conformance/src/lifecycle_provider.rs: the issue of a mailbox and its rotation.
use session_chat.Prelude.{
  ℕ, [], ◌∷◌, ◌++◌, Bool, true, false, ◌||◌, ◌&&◌, not, Option, none, some, ◌==◌, if◌then◌else◌,
  find, update_first, filled,
}
use session_chat.Prelude.Outcome.{Result, ok, err, ◌>>=◌, map_err, is_ok}
use session_chat.Prelude.Bytes.{Bytes, same}
use session_chat.Transport.Contract.{
  TransportFailure, internal, invalid_authority, policy_violation, idempotency_conflict,
  authority_scope_mismatch,
}
use session_chat.Transport.Dispatch.{DispatchControl}
use session_chat.Receive.Binding.{
  same_profile, CursorBindingV1, same_binding, continuity_from_bytes, generation_new,
}
use session_chat.Receive.Rotation.{
  LifecycleProviderContractV1, RotationModeV1, routine, compromise, RotationRequestV1,
  MailboxIssueRequestV1, MailboxIssueResultV1, MailboxRotationResultV1, validate_issue_request,
  validate_rotation_request, issue_result_new, rotation_result_new,
}
use session_chat.Lifecycle.Provider.{
  DeterministicAuthorityV1, GenerationMaterial, RotationRecord, MailboxState, LifecycleProvider,
  refusal, and_then, take_material, fresh_generation, authorities, is_of,
}

abbrev pub Issued : Type 0
Issued =
    MailboxIssueResultV1 DeterministicAuthorityV1 DeterministicAuthorityV1 DeterministicAuthorityV1
      DeterministicAuthorityV1

abbrev pub Rotated : Type 0
Rotated =
    MailboxRotationResultV1 DeterministicAuthorityV1 DeterministicAuthorityV1
      DeterministicAuthorityV1 DeterministicAuthorityV1

-- `==` on declarations, modes and the terms of a rotation.
abbrev pub same_contract : LifecycleProviderContractV1 → LifecycleProviderContractV1 → Bool
same_contract a b =
    same_profile a.profile b.profile
    && (a.cursor_schema == b.cursor_schema && a.maximum_routine_drain == b.maximum_routine_drain)

abbrev pub same_mode : RotationModeV1 → RotationModeV1 → Bool
same_mode (routine a) (routine b) = a == b
same_mode compromise compromise = true
same_mode _ _ = false

abbrev pub same_terms : RotationRecord → RotationRequestV1 → Bool
same_terms kept r =
    same_binding kept.predecessor r.predecessor
    && (same_mode kept.mode r.mode && kept.successor_expires_at == r.successor_expires_at)

abbrev pub mailbox_for : GenerationMaterial → MailboxState
mailbox_for m = record { material = m; retire_at = none; deliveries = [] }

-- The identifier of a new mailbox, and its first generation.
unfoldable pub first_of : ℕ → Result TransportFailure (Bytes × ℕ)
first_of byte = do
  continuity ← map_err (λ _. refusal internal) (continuity_from_bytes (filled 16 byte))
  generation ← map_err (λ _. refusal internal) (generation_new 1)
  ok (continuity, generation)

-- `issue_now` behind its checkpoint.
unfoldable pub issue_at :
    LifecycleProvider
    → LifecycleProviderContractV1
    → MailboxIssueRequestV1
    → ℕ
    → LifecycleProvider × Result TransportFailure Issued
issue_at p expected request now =
    if not (same_contract expected p.contract)
      || not (is_ok (validate_issue_request p.contract request now))
    then (p, err (refusal policy_violation))
    else and_then (take_material p) (λ p1 byte. elim (first_of byte) [
      | err e ↦ (p1, err e)
      | ok (continuity, generation) ↦
          and_then
            (fresh_generation p1 request.binding_fingerprint continuity generation
              request.expires_at)
            (λ p2 material.
              elim (issue_result_new p2.contract request (authorities material p2.scope) now) [
                | err _ ↦ (p2, err (refusal internal))
                | ok result ↦ (
                  record p2 {
                    mailboxes = p2.mailboxes ++ mailbox_for material ∷ [];
                    active = p2.active ++ material.binding ∷ [];
                  },
                  ok result,
                )
              ])
    ])

-- `request_mode`
abbrev pub request_mode : RotationModeV1 → Option ℕ
request_mode (routine until) = some until
request_mode compromise = none

abbrev pub retirement : RotationModeV1 → ℕ → ℕ
retirement mode now = elim (request_mode mode) [ some drain ↦ drain | none ↦ now ]

-- The authority does not hold the rotation token of the predecessor.
abbrev pub is_unproven : LifecycleProvider → DeterministicAuthorityV1 → CursorBindingV1 → Bool
is_unproven p a predecessor =
    not (same_binding a.binding predecessor) || elim (find (is_of predecessor) p.mailboxes) [
      | none ↦ true
      | some m ↦ not (same m.material.rotation a.token)
    ]

-- The rotation to a fresh generation.
unfoldable pub rotate_active :
    LifecycleProvider → RotationRequestV1 → ℕ → LifecycleProvider × Result TransportFailure Rotated
rotate_active p request now =
    let predecessor = request.predecessor in
    and_then
      (fresh_generation p predecessor.binding_fingerprint predecessor.continuity_id
        request.successor_generation request.successor_expires_at)
      (λ p1 successor.
        elim (rotation_result_new p1.contract request (authorities successor p1.scope) now) [
          | err _ ↦ (p1, err (refusal internal))
          | ok result ↦ elim (find (is_of predecessor) p1.mailboxes) [
            | none ↦ (p1, err (refusal internal))
            | some _ ↦ (
              record p1 {
                mailboxes =
                    update_first (is_of predecessor)
                      (λ m. record m { retire_at = some (retirement request.mode now) })
                      p1.mailboxes
                    ++ mailbox_for successor ∷ [];
                active =
                    update_first (λ b. same b.continuity_id predecessor.continuity_id)
                      (λ _. successor.binding) p1.active;
                rotations =
                    p1.rotations
                    ++ record {
                      rotation_id = request.rotation_id;
                      predecessor = predecessor;
                      mode = request.mode;
                      successor_expires_at = request.successor_expires_at;
                      successor = successor;
                    }
                      ∷ [];
              },
              ok result,
            )
          ]
        ])

abbrev pub repeat_rotation :
    LifecycleProvider → RotationRecord → RotationRequestV1 → ℕ → Result TransportFailure Rotated
repeat_rotation p kept request now =
    if same_terms kept request
    then map_err (λ _. refusal internal)
        (rotation_result_new p.contract request (authorities kept.successor p.scope) now)
    else err (refusal idempotency_conflict)

-- The predecessor is not the active generation of its mailbox.
abbrev pub is_inactive : LifecycleProvider → CursorBindingV1 → Bool
is_inactive p predecessor =
    elim (find (λ b. same b.continuity_id predecessor.continuity_id) p.active) [
      | none ↦ true
      | some b ↦ not (same_binding b predecessor)
    ]

-- `rotate_now` behind its checkpoint.
unfoldable pub rotate_at :
    LifecycleProvider
    → LifecycleProviderContractV1
    → DeterministicAuthorityV1
    → RotationRequestV1
    → ℕ
    → LifecycleProvider × Result TransportFailure Rotated
rotate_at p expected a request now =
    if not (same_contract expected p.contract)
      || not (is_ok (validate_rotation_request p.contract request now))
    then (p, err (refusal policy_violation))
    else if not (p.scope == a.scope)
    then (p, err (refusal policy_violation))
    else if is_unproven p a request.predecessor
    then (p, err (refusal invalid_authority))
    else elim (find (λ kept. same kept.rotation_id request.rotation_id) p.rotations) [
      | some kept ↦ (p, repeat_rotation p kept request now)
      | none ↦
          if is_inactive p request.predecessor
          then (p, err (refusal authority_scope_mismatch))
          else rotate_active p request now
    ]

module _ {K : Type 0} (control : DispatchControl K) where
  unfoldable pub issue_now :
      K
      → LifecycleProvider
      → LifecycleProviderContractV1
      → MailboxIssueRequestV1
      → K × LifecycleProvider × Result TransportFailure Issued
  issue_now k p expected request =
      let (k', observed) = control.checkpoint request.budget k in
      elim observed [
        | err f ↦ (k', p, err f)
        | ok o ↦ let (p', result) = issue_at p expected request o.wall_now in (k', p', result)
      ]

  unfoldable pub rotate_now :
      K
      → LifecycleProvider
      → LifecycleProviderContractV1
      → DeterministicAuthorityV1
      → RotationRequestV1
      → K × LifecycleProvider × Result TransportFailure Rotated
  rotate_now k p expected a request =
      let (k', observed) = control.checkpoint request.budget k in
      elim observed [
        | err f ↦ (k', p, err f)
        | ok o ↦ let (p', result) = rotate_at p expected a request o.wall_now in (k', p', result)
      ]
