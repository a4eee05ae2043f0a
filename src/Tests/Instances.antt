-- ===== src/Tests/Instances.antt =====
-- Concrete third-party code, with which the hypotheses hold: an encoding in which a byte may be any
-- number, and signatures that verify when they are the one signature.
use session_chat.Prelude.{
  ℕ, zero, suc, ◌≡◌, refl, true, [], ◌∷◌, ◌++◌, Option, none, some, arith, ◌==◌, if◌then◌else◌,
  length,
}
use session_chat.Prelude.Bytes.{Bytes, same, same_refl}
use session_chat.Protocol.Cbor.{Cbor, IsCbor, IsCompact}
use session_chat.Protection.Provider.{Hpke, IsHpke}
use session_chat.Protocol.Signature.{Ed25519, IsEd25519}

abbrev pub repeat : ℕ → ℕ → Bytes
repeat zero b = []
repeat (suc n) b = b ∷ repeat n b

-- The first bytes and the others, when there are enough.
abbrev pub split : ℕ → Bytes → Option (Bytes × Bytes)
split zero bytes = some ([], bytes)
split (suc n) [] = none
split (suc n) (b ∷ bytes) = elim (split n bytes) [ none ↦ none | some p ↦ some (b ∷ p.0, p.1) ]

split-append : (b rest : Bytes) → split (length b) (b ++ rest) ≡ some (b, rest)
split-append [] rest = refl
split-append (x ∷ b) rest = rw (split-append b rest)

-- A value is its tag and the value; a byte string has its length before it.
abbrev tagged : ℕ → ℕ → Bytes
tagged tag n = tag ∷ n ∷ []

abbrev untag : ℕ → Bytes → Option (ℕ × Bytes)
untag tag (t ∷ n ∷ rest) = if t == tag then some (n, rest) else none
untag tag _ = none

abbrev get_string : Option (ℕ × Bytes) → Option (Bytes × Bytes)
get_string none = none
get_string (some (n, rest)) = split n rest

abbrev get_header : Option (ℕ × Bytes) → Option (Option ℕ × Bytes)
get_header none = none
get_header (some (n, rest)) = some (some n, rest)

abbrev pub plain_cbor : Cbor
plain_cbor = record {
  put_array = tagged 4;
  put_u16 = tagged 0;
  put_u64 = tagged 1;
  put_bytes = λ b. tagged 2 (length b) ++ b;
  get_array = λ bytes. get_header (untag 4 bytes);
  get_u16 = untag 0;
  get_u64 = untag 1;
  get_bytes = λ bytes. get_string (untag 2 bytes);
}

pub plain_cbor-IsCbor : IsCbor plain_cbor
plain_cbor-IsCbor = record {
  array_law = λ n rest h. refl;
  u16_law = λ n rest h. refl;
  u64_law = λ n rest h. refl;
  bytes_law = λ b rest h. split-append b rest;
  array_size = λ n. omega arith;
  u16_size = λ n. omega arith;
  u64_size = λ n. omega arith;
  bytes_size = λ b. omega arith;
}

abbrev pub one_signature : Ed25519
one_signature = record {
  verifying_key = λ k. repeat 32 7;
  sign = λ k m. repeat 64 9;
  is_key = λ key. same key (repeat 32 7);
  is_weak = λ key. same key (repeat 32 0);
  verify_strict = λ key m signature. same signature (repeat 64 9);
}

pub one_signature-IsEd25519 : IsEd25519 one_signature
one_signature-IsEd25519 = record {
  key_size = λ k. refl;
  signature_size = λ k m. refl;
  own_key = λ k. same_refl (repeat 32 7);
  own_signature = λ k m. same_refl (repeat 64 9);
}

-- An encoding without tags: a number is itself, and a byte string has its length before it.
abbrev first_byte : Bytes → Option (ℕ × Bytes)
first_byte [] = none
first_byte (n ∷ rest) = some (n, rest)

abbrev pub short_cbor : Cbor
short_cbor = record {
  put_array = λ n. n ∷ [];
  put_u16 = λ n. n ∷ [];
  put_u64 = λ n. n ∷ [];
  put_bytes = λ b. length b ∷ b;
  get_array = λ bytes. get_header (first_byte bytes);
  get_u16 = first_byte;
  get_u64 = first_byte;
  get_bytes = λ bytes. get_string (first_byte bytes);
}

pub short_cbor-IsCbor : IsCbor short_cbor
short_cbor-IsCbor = record {
  array_law = λ n rest h. refl;
  u16_law = λ n rest h. refl;
  u64_law = λ n rest h. refl;
  bytes_law = λ b rest h. split-append b rest;
  array_size = λ n. omega arith;
  u16_size = λ n. omega arith;
  u64_size = λ n. omega arith;
  bytes_size = λ b. omega arith;
}

pub short_cbor-IsCompact : IsCompact short_cbor
short_cbor-IsCompact = record {
  array_head = λ n. ground arith;
  u16_head = λ n. ground arith;
  bytes_head = λ b. ground arith;
}

-- A provider whose public key is the private key, and whose ciphertext is the plaintext behind a byte.
abbrev opened : Bytes → Option Bytes
opened [] = none
opened (b ∷ plaintext) = some plaintext

abbrev pub clear_hpke : Hpke Bytes Bytes
clear_hpke = record {
  available = true;
  generate = λ random. some (random, random);
  public_key = λ private_key. some private_key;
  public_key_validate = λ public. true;
  setup_sender = λ random public info psk psk_id. some (repeat 32 5, public);
  seal = λ sender aad plaintext. some (9 ∷ plaintext);
  setup_receiver = λ key private_key public info psk psk_id. some private_key;
  unseal = λ receiver aad ciphertext. opened ciphertext;
}

pub clear_hpke-IsHpke : IsHpke clear_hpke
clear_hpke-IsHpke = record {
  opens =
      λ random private_key public info psk psk_id key sender aad plaintext ciphertext own sent
          sealed.
        (private_key, refl, ground (arith, sealed));
  generated = λ random private_key public h. ground (arith, h);
}
