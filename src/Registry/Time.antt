-- ===== src/Registry/Time.antt =====
-- When an invitation is accepted: its times, and its place in the registry.
use session_chat.Prelude.{ℕ, ◌-◌, ◌≤◌, ◌<◌, ◌≡◌, ◌↔◌, ◌⊎◌, true, false, some, arith, saturating_add}
use session_chat.Prelude.Outcome.{ok, is_ok}
use session_chat.Prelude.Map.{lookup, retain, count_values}
use session_chat.Prelude.Map.Laws.{lookup-insert}
use session_chat.Protocol.InvitationV2.{SignedCapabilityInvitationV2}
use session_chat.Registry.Types.{InvitationPolicy, InvitationRegistry, v2}
use session_chat.Registry.Issue.{
  is_live, holds_live, fresh_record, validate_time_values, insert_record, issue_v2,
}

abbrev pub IsTimely : InvitationPolicy → ℕ → ℕ → ℕ → Type 0
IsTimely policy issued_at expires_at now =
    (issued_at ≤ saturating_add now policy.maximum_future_skew)
    × (now < expires_at)
    × (expires_at - issued_at ≤ policy.maximum_lifetime)

-- The times are accepted exactly when the issue is not beyond the skew, the expiry lies ahead, and
-- the lifetime is within the policy.
pub validate_time_values_exact :
    (policy : InvitationPolicy) (issued_at expires_at now : ℕ)
    → (validate_time_values policy issued_at expires_at now ≡ ok tt)
      ↔ IsTimely policy issued_at expires_at now
unfolding validate_time_values
validate_time_values_exact policy issued_at expires_at now = (λ h. ground arith, λ h. ground arith)

-- An issue of version 2 succeeds exactly when the times are accepted, no live record has the
-- identifier, and fewer live records are held than the policy allows. Then the identifier has an
-- available record of the invitation; otherwise the registry stays as it was.
pub issue_v2_exact :
    (g : InvitationRegistry) (i : SignedCapabilityInvitationV2) (now : ℕ)
    → let id = i.claims.base.invitation_id in
      let after = issue_v2 g i now in
      ((is_ok after.1 ≡ true)
        × IsTimely g.policy i.claims.base.issued_at i.claims.base.expires_at now
        × (holds_live now (lookup id g.records) ≡ false)
        × (count_values (is_live now) g.records < g.policy.maximum_live)
        × (lookup id after.0.records
            ≡ some (fresh_record v2 i.claims.base.expires_at i.inviter_verifying_key i.signature)))
      ⊎ ((is_ok after.1 ≡ false)
          × (after.0 ≡ g)
          × ¬ (
              IsTimely g.policy i.claims.base.issued_at i.claims.base.expires_at now
              × (holds_live now (lookup id g.records) ≡ false)
              × (count_values (is_live now) g.records < g.policy.maximum_live)))
unfolding issue_v2 validate_time_values insert_record
issue_v2_exact g i now = ground (
  arith,
  lookup-insert i.claims.base.invitation_id i.claims.base.invitation_id
      (fresh_record v2 i.claims.base.expires_at i.inviter_verifying_key i.signature)
      (retain (is_live now) g.records),
)
