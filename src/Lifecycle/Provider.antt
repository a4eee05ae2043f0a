-- ===== src/Lifecycle/Provider.antt =====
-- crates/transport-conformance/src/lifecycle_provider.rs: the state of the deterministic lifecycle
-- provider, the material that it draws, and the authorities that it gives out. The `Arc` that tells
-- providers apart is a number.
use session_chat.Prelude.{
  ℕ, ◌+◌, List, [], Bool, false, ◌||◌, not, Option, none, some, ◌==◌, leb, if◌then◌else◌, find,
  filled,
}
use session_chat.Prelude.Outcome.{Result, ok, err, ◌>>=◌, map_err}
use session_chat.Prelude.Bytes.{Bytes, same}
use session_chat.Transport.Contract.{
  TransportFailureCode, TransportFailure, failure, never, internal, invalid_authority,
  policy_violation, queue_full,
}
use session_chat.Receive.Binding.{
  fast_v1, CursorBindingV1, same_binding, scope_from_bytes, epoch_new, binding_new,
}
use session_chat.Receive.Rotation.{
  LifecycleProviderContractV1, RotationModeV1, MailboxAuthoritySetV1,
}

-- The private material of each of the four rights: they have the same fields.
pub record DeterministicAuthorityV1 : Type 0 where
  pub scope : ℕ
  pub binding : CursorBindingV1
  pub token : Bytes

pub record GenerationMaterial : Type 0 where
  pub binding : CursorBindingV1
  pub deposit : Bytes
  pub receive : Bytes
  pub acknowledgement : Bytes
  pub rotation : Bytes

pub record RotationRecord : Type 0 where
  pub rotation_id : Bytes
  pub predecessor : CursorBindingV1
  pub mode : RotationModeV1
  pub successor_expires_at : ℕ
  pub successor : GenerationMaterial

pub record StoredDelivery : Type 0 where
  pub sequence : ℕ
  pub delivery_id : Bytes
  pub envelope_id : Bytes
  pub canonical_bytes : Bytes
  pub expires_at : ℕ
  pub acknowledged : Bool

pub record MailboxState : Type 0 where
  pub material : GenerationMaterial
  pub retire_at : Option ℕ
  pub deliveries : List StoredDelivery

pub record LifecycleProvider : Type 0 where
  pub scope : ℕ
  pub contract : LifecycleProviderContractV1
  pub next_material : ℕ
  pub next_delivery_sequence : ℕ
  pub mailboxes : List MailboxState
  pub active : List CursorBindingV1
  pub rotations : List RotationRecord

-- A new provider, with the identity of its scope.
unfoldable pub new : ℕ → LifecycleProvider
new scope = record {
  scope = scope;
  contract = record { profile = fast_v1; cursor_schema = 2; maximum_routine_drain = 300 };
  next_material = 1;
  next_delivery_sequence = 1;
  mailboxes = [];
  active = [];
  rotations = [];
}

-- The private `failure` of the file.
abbrev pub refusal : TransportFailureCode → TransportFailure
refusal code = failure code never

-- The `?` operator of a method that has changed the provider.
abbrev pub and_then {ℓ κ} :
    {A : Type ℓ} {B : Type κ}
    → LifecycleProvider × Result TransportFailure A
    → (LifecycleProvider → A → LifecycleProvider × Result TransportFailure B)
    → LifecycleProvider × Result TransportFailure B
and_then (p, ok a) f = f p a
and_then (p, err e) f = (p, err e)

-- `take_material`: one byte, of which 255 cannot be taken.
unfoldable pub take_material : LifecycleProvider → LifecycleProvider × Result TransportFailure ℕ
take_material p =
    if leb 255 p.next_material
    then (p, err (refusal queue_full))
    else (record p { next_material = p.next_material + 1 }, ok p.next_material)

abbrev pub binding_of :
    LifecycleProvider
    → (scope_byte : ℕ) (fingerprint continuity : Bytes) (generation expires_at : ℕ)
    → Result TransportFailure CursorBindingV1
binding_of p scope_byte fingerprint continuity generation expires_at =
    map_err (λ _. refusal internal)
      (scope_from_bytes (filled 32 scope_byte) >>= λ scope. epoch_new 1 >>= λ epoch.
        binding_new p.contract.profile fingerprint continuity generation scope
          p.contract.cursor_schema epoch expires_at)

unfoldable pub fresh_generation :
    LifecycleProvider
    → (fingerprint continuity : Bytes) (generation expires_at : ℕ)
    → LifecycleProvider × Result TransportFailure GenerationMaterial
fresh_generation p fingerprint continuity generation expires_at =
    and_then (take_material p) (λ p1 s.
      elim (binding_of p1 s fingerprint continuity generation expires_at) [
        | err e ↦ (p1, err e)
        | ok binding ↦ and_then (take_material p1) (λ p2 d. and_then (take_material p2) (λ p3 r.
            and_then (take_material p3) (λ p4 a. and_then (take_material p4) (λ p5 o. (
              p5,
              ok (record {
                binding = binding;
                deposit = filled 32 d;
                receive = filled 32 r;
                acknowledgement = filled 32 a;
                rotation = filled 32 o;
              }),
            )))))
      ])

abbrev pub authority : ℕ → CursorBindingV1 → Bytes → DeterministicAuthorityV1
authority scope binding token = record { scope = scope; binding = binding; token = token }

abbrev pub Authorities : Type 0
Authorities =
    MailboxAuthoritySetV1 DeterministicAuthorityV1 DeterministicAuthorityV1 DeterministicAuthorityV1
      DeterministicAuthorityV1

unfoldable pub authorities : GenerationMaterial → ℕ → Authorities
authorities m scope = record {
  binding = m.binding;
  deposit = authority scope m.binding m.deposit;
  receive = authority scope m.binding m.receive;
  acknowledgement = authority scope m.binding m.acknowledgement;
  rotation = authority scope m.binding m.rotation;
}

abbrev pub is_of : CursorBindingV1 → MailboxState → Bool
is_of binding m = same_binding m.material.binding binding

-- `mailbox_index`, with the mailbox at the index: the first of the binding.
unfoldable pub mailbox_index :
    LifecycleProvider
    → CursorBindingV1
    → Bytes
    → (GenerationMaterial → Bytes)
    → ℕ
    → Result TransportFailure MailboxState
mailbox_index p binding token expected now = elim (find (is_of binding) p.mailboxes) [
  | none ↦ err (refusal invalid_authority)
  | some m ↦
      if not (same (expected m.material) token)
        || (leb binding.expires_at now
            || elim m.retire_at [ none ↦ false | some retire_at ↦ leb retire_at now ])
      then err (refusal invalid_authority)
      else ok m
]

-- The test of the scope, and the mailbox.
unfoldable pub open_mailbox :
    LifecycleProvider
    → DeterministicAuthorityV1
    → (GenerationMaterial → Bytes)
    → ℕ
    → Result TransportFailure MailboxState
open_mailbox p a expected now =
    if not (p.scope == a.scope)
    then err (refusal policy_violation)
    else mailbox_index p a.binding a.token expected now
