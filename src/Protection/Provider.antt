-- ===== src/Protection/Provider.antt =====
-- The third-party HPKE provider (RFC 9180, PSK mode), as far as the protector uses it, and the
-- errors of the boundary. `unseal` is its `open`. A setup takes the randomness that it draws; `none` is a provider error.
use session_chat.Prelude.{◌≡◌, Bool, Option, some}
use session_chat.Prelude.Bytes.{Bytes}
use session_chat.Protocol.Error.{
  WireError, wire_object_too_large, key_package_too_large, protected_join_ciphertext_too_large,
}

pub record Hpke (Sender Receiver : Type 0) : Type 0 where
  pub available : Bool
  pub generate : (random : Bytes) → Option (Bytes × Bytes)
  pub public_key : (private_key : Bytes) → Option Bytes
  pub public_key_validate : (public_key : Bytes) → Bool
  pub setup_sender : (random public_key info psk psk_id : Bytes) → Option (Bytes × Sender)
  pub seal : Sender → (aad plaintext : Bytes) → Option Bytes
  pub setup_receiver :
      (encapsulated_key private_key public_key info psk psk_id : Bytes) → Option Receiver
  pub unseal : Receiver → (aad ciphertext : Bytes) → Option Bytes

-- What RFC 9180 promises: the holder of the private key sets up the receiver of what was sent to
-- its public key, under the same info and PSK, and it opens what the sender sealed; a generated
-- private key computes its public key.
pub record IsHpke {Sender Receiver : Type 0} (h : Hpke Sender Receiver) : Type 0 where
  pub opens :
      (random private_key public info psk psk_id encapsulated_key : Bytes) (sender : Sender)
      (aad plaintext ciphertext : Bytes)
      → h.public_key private_key ≡ some public
      → h.setup_sender random public info psk psk_id ≡ some (encapsulated_key, sender)
      → h.seal sender aad plaintext ≡ some ciphertext
      → (receiver : Receiver) × (h.setup_receiver encapsulated_key private_key public info psk
            psk_id
          ≡ some receiver)
        × (h.unseal receiver aad ciphertext ≡ some plaintext)
  pub generated :
      (random private_key public : Bytes)
      → h.generate random ≡ some (private_key, public)
      → h.public_key private_key ≡ some public

pub data JoinProtectionError : Type 0 where
  input_too_large rejected : JoinProtectionError

abbrev pub protocol_error : WireError → JoinProtectionError
protocol_error (wire_object_too_large actual maximum) = input_too_large
protocol_error (key_package_too_large actual maximum) = input_too_large
protocol_error (protected_join_ciphertext_too_large actual maximum) = input_too_large
protocol_error _ = rejected
