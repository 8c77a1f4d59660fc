-- ===== src/Crypto/Signature.antt =====
-- windows/crypto/CryptoManager.cpp: `ValidateAndAdaptSignature`, `VerifySignature` and
-- `VerifyCanonicalSignedMessage`. The operations of Windows CNG are the interface `Cng`.
pub mod Laws
use pc_unlock_project.Common.{
  ℕ, ◌≡◌, ◌≢◌, ◌↔◌, Bool, true, false, not, ◌||◌, ◌==◌, if◌then◌else◌, List, [], ◌∷◌, Option, none,
  some, Bytes, length, take, drop,
}
use pc_unlock_project.Protocol.SignedMessage.{SignedMessage, serialize_signed_message}
use pc_unlock_project.Crypto.Der.{Der, rejected, out_of_bounds, parsed}
use pc_unlock_project.Crypto.Keys.{normalize_public_key_to_ecc_blob}

-- Importing a key blob, the SHA-256 digest, and the check of a signature of a digest; `none` and
-- false for every failure.
pub record Cng : Type 1 where
  pub Key : Type 0
  pub import_key_pair : Bytes → Option Key
  pub sha256 : Bytes → Option Bytes
  pub verify_hash : Key → Bytes → Bytes → Bool

unfoldable pub has_non_zero : Bytes → Bool
has_non_zero [] = false
has_non_zero (b ∷ bs) = let rest = has_non_zero bs in if not (b == 0) then true else rest

-- The signature that is handed to the system, unchanged.
unfoldable pub validate_and_adapt_signature : Bytes → Option Bytes
validate_and_adapt_signature signature =
    if not (length signature == 64)
    then none
    else if not (has_non_zero (take 32 signature))
    then none
    else if not (has_non_zero (take 32 (drop 32 signature)))
    then none
    else some signature

module _ (C : Cng) where
  unfoldable pub verify_signature : C.Key → Bytes → Bytes → Bool
  verify_signature key message signature =
      if length message == 0 || not (length signature == 64)
      then false
      else elim (C.sha256 message) [
        | none ↦ false
        | some digest ↦ elim (validate_and_adapt_signature signature) [
          | none ↦ false
          | some adapted ↦ C.verify_hash key digest adapted
        ]
      ]

  unfoldable pub import_public_key : Bytes → Option C.Key
  import_public_key key = elim (normalize_public_key_to_ecc_blob key) [
    | parsed blob ↦ C.import_key_pair blob
    | _ ↦ none
  ]

  unfoldable pub verify_canonical_signed_message : Bytes → SignedMessage → Bytes → Bool
  verify_canonical_signed_message public_key m signature = elim (import_public_key public_key) [
    | none ↦ false
    | some key ↦
        let bytes = serialize_signed_message m in
        if not (length bytes == 88) then false else verify_signature key bytes signature
  ]
