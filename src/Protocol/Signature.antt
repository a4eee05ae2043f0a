-- ===== src/Protocol/Signature.antt =====
-- The third-party crate `ed25519_dalek`, as far as invitations and join requests use it. Keys, messages
-- and signatures are bytes; `is_key` tells whether `VerifyingKey::from_bytes` succeeds, whose
-- `to_bytes` gives back the bytes, and `is_weak` is its method.
use session_chat.Prelude.{◌≡◌, Bool, true, length}
use session_chat.Prelude.Bytes.{Bytes}

pub record Ed25519 : Type 0 where
  pub verifying_key : Bytes → Bytes
  pub sign : Bytes → Bytes → Bytes
  pub is_key : Bytes → Bool
  pub is_weak : Bytes → Bool
  pub verify_strict : Bytes → Bytes → Bytes → Bool

-- What RFC 8032 and the crate's documentation promise of a signing key and its own signatures.
pub record IsEd25519 (s : Ed25519) : Type 0 where
  pub key_size : (k : Bytes) → length (s.verifying_key k) ≡ 32
  pub signature_size : (k m : Bytes) → length (s.sign k m) ≡ 64
  pub own_key : (k : Bytes) → s.is_key (s.verifying_key k) ≡ true
  pub own_signature : (k m : Bytes) → s.verify_strict (s.verifying_key k) m (s.sign k m) ≡ true
