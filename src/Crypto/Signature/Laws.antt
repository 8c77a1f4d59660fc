-- ===== src/Crypto/Signature/Laws.antt =====
-- What a verified message has: an imported key, a digest, and a signature that the system accepts.
use pc_unlock_project.Common.{
  ℕ, ◌≡◌, ◌≢◌, ◌↔◌, refl, Bool, true, false, not, ◌==◌, ==_iff, if◌then◌else◌, Option, none, some,
  Bytes, length, take, drop, arith, Option-cases, Bool-cases, inl, inr,
}
use pc_unlock_project.Protocol.SignedMessage.{SignedMessage, serialize_signed_message}
use pc_unlock_project.Protocol.SignedMessage.Layout.{FitsMessage}
use pc_unlock_project.Protocol.SignedMessage.Codec.{length-serialize_signed_message}
use pc_unlock_project.Crypto.Der.{Der, parsed, rejected, out_of_bounds}
use pc_unlock_project.Crypto.Keys.{normalize_public_key_to_ecc_blob}
use pc_unlock_project.Crypto.Signature.{
  Cng, has_non_zero, validate_and_adapt_signature, verify_signature, import_public_key,
  verify_canonical_signed_message,
}

-- A signature that passes the checks is handed on unchanged, has 64 bytes, and neither of its
-- halves is zero.
adapted_iff :
    (signature adapted : Bytes)
    → (validate_and_adapt_signature signature ≡ some adapted) ↔ (
        (adapted ≡ signature)
        × (length signature ≡ 64)
        × (has_non_zero (take 32 signature) ≡ true)
        × (has_non_zero (take 32 (drop 32 signature)) ≡ true))
unfolding validate_and_adapt_signature
adapted_iff signature adapted =
    of_tests (length signature) (has_non_zero (take 32 signature))
      (has_non_zero (take 32 (drop 32 signature)))
  where
    of_tests :
        (n : ℕ) (r s : Bool)
        → ((if not (n == 64)
              then none
              else if not r
              then none
              else if not s
              then none
              else some signature)
            ≡ some adapted)
          ↔ ((adapted ≡ signature) × (n ≡ 64) × (r ≡ true) × (s ≡ true))
    of_tests n r s = ground arith

module _ (C : Cng) where
  -- What the system is asked: the digest of the message's bytes, the imported key, the signature.
  pub record Verifies (public_key : Bytes) (m : SignedMessage) (signature : Bytes) (key : C.Key)
      (blob digest : Bytes) : Type 0 where
    pub normal : normalize_public_key_to_ecc_blob public_key ≡ parsed blob
    pub imported : C.import_key_pair blob ≡ some key
    pub hashed : C.sha256 (serialize_signed_message m) ≡ some digest
    pub size : length signature ≡ 64
    pub first_half : has_non_zero (take 32 signature) ≡ true
    pub second_half : has_non_zero (take 32 (drop 32 signature)) ≡ true
    pub holds : C.verify_hash key digest signature ≡ true

  signature_true :
      (key : C.Key) (message signature : Bytes)
      → verify_signature C key message signature ≡ true
      → (digest : Bytes) × (C.sha256 message ≡ some digest)
        × (validate_and_adapt_signature signature ≡ some signature)
        × (C.verify_hash key digest signature ≡ true)
  unfolding verify_signature
  signature_true key message signature h = elim (Option-cases (C.sha256 message)) [
    | inl missing ↦ ground arith
    | inr (digest, e) ↦ elim (Option-cases (validate_and_adapt_signature signature)) [
      | inl bad ↦ ground arith
      | inr (adapted, f) ↦
          let same : adapted ≡ signature = ((adapted_iff signature adapted).0 f).0 in
          (digest, e, cc, ground (arith, same))
    ]
  ]

  signature_checked :
      (key : C.Key) (message signature digest : Bytes)
      → (length message == 0) ≡ false
      → C.sha256 message ≡ some digest
      → length signature ≡ 64
      → validate_and_adapt_signature signature ≡ some signature
      → C.verify_hash key digest signature ≡ true
      → verify_signature C key message signature ≡ true
  unfolding verify_signature
  signature_checked key message signature digest some_text e n f h =
      let sized : (length signature == 64) ≡ true = (==_iff (length signature) 64).1 n in
      rw (some_text, sized, e, f, h) refl

  none_imported :
      (o : Option C.Key) (f : C.Key → Bool)
      → o ≡ none
      → (elim o as (λ q. Bool) [ none ↦ false | some k ↦ f k ]) ≢ true
  none_imported none f e h = cc
  none_imported (some k) f e h = cc

  some_imported :
      (o : Option C.Key) (key : C.Key) (b : Bool) (f : C.Key → Bool)
      → o ≡ some key
      → (elim o as (λ q. Bool) [ none ↦ false | some k ↦ if b then false else f k ]) ≡ true
      → f key ≡ true
  some_imported none key b f e h = cc
  some_imported (some k) key b f e h = elim (Bool-cases b) [
    | inl bad ↦ ground arith
    | inr good ↦ ground arith
  ]

  imported_by :
      (d : Der Bytes) (key : C.Key)
      → (elim d as (λ q. Option C.Key) [ parsed blob ↦ C.import_key_pair blob | _ ↦ none ])
        ≡ some key
      → (blob : Bytes) × (d ≡ parsed blob) × (C.import_key_pair blob ≡ some key)
  imported_by rejected key h = cc
  imported_by out_of_bounds key h = cc
  imported_by (parsed blob) key h = (blob, refl, h)

  verified_by :
      (public_key : Bytes) (m : SignedMessage) (signature : Bytes)
      → verify_canonical_signed_message C public_key m signature ≡ true
      → (key : C.Key) × (blob : Bytes) × (digest : Bytes) × Verifies public_key m signature key blob
          digest
  unfolding verify_canonical_signed_message import_public_key
  verified_by public_key m signature h = elim (Option-cases (import_public_key C public_key)) [
    | inl missing ↦ absurd (none_imported (import_public_key C public_key) _ missing h)
    | inr (key, e) ↦
        let (blob, normal, imported) =
          imported_by (normalize_public_key_to_ecc_blob public_key) key e in
        let (digest, hashed, adapted, holds) =
          signature_true key (serialize_signed_message m) signature (
            some_imported (import_public_key C public_key) key
              (not (length (serialize_signed_message m) == 88))
              (λ k. verify_signature C k (serialize_signed_message m) signature) e h) in
        let (same, size, first_half, second_half) = (adapted_iff signature signature).0 adapted in
        (
          key,
          blob,
          digest,
          record {
            normal = normal;
            imported = imported;
            hashed = hashed;
            size = size;
            first_half = first_half;
            second_half = second_half;
            holds = holds;
          },
        )
  ]

  verifies :
      (public_key : Bytes) (m : SignedMessage) (signature : Bytes) (key : C.Key)
      (blob digest : Bytes)
      → FitsMessage m
      → Verifies public_key m signature key blob digest
      → verify_canonical_signed_message C public_key m signature ≡ true
  unfolding verify_canonical_signed_message import_public_key
  verifies public_key m signature key blob digest fits v =
      let n : length (serialize_signed_message m) ≡ 88 = length-serialize_signed_message m fits in
      let adapted =
        (adapted_iff signature signature).1 (refl, v.size, v.first_half, v.second_half) in
      let long : (length (serialize_signed_message m) == 0) ≡ false = rw n refl in
      rw (v.normal, v.imported, n, verify_canonical_signed_message, import_public_key)
        (signature_checked key (serialize_signed_message m) signature digest long v.hashed v.size
          adapted v.holds)

  -- For a message whose members fit, the answer is true exactly if the key has a known encoding
  -- whose blob the system imports, the digest of the 88 bytes is computed, the signature has 64
  -- bytes and neither half of it is zero, and the system accepts it for that key and digest.
  pub verify_canonical_signed_message_iff :
      (public_key : Bytes) (m : SignedMessage) (signature : Bytes)
      → FitsMessage m
      → (verify_canonical_signed_message C public_key m signature ≡ true) ↔ (
          (key : C.Key) × (blob : Bytes) × (digest : Bytes) × Verifies public_key m signature key
            blob digest)
  verify_canonical_signed_message_iff public_key m signature fits = (
    verified_by public_key m signature,
    λ (key, blob, digest, v). verifies public_key m signature key blob digest fits v,
  )
