-- ===== src/Tests/Keys.antt =====
-- Public keys and signatures at concrete bytes.
use pc_unlock_project.Common.{
  ◌≡◌, ◌↔◌, refl, true, [], ◌∷◌, ◌++◌, some, Bytes, bytes_eq, take, replicate,
}
use pc_unlock_project.Crypto.Der.{parsed, out_of_bounds, parse_spki_der}
use pc_unlock_project.Crypto.Keys.{blob_header, normalize_public_key_to_ecc_blob}
use pc_unlock_project.Crypto.Keys.Encodings.{
  spki_prefix, normalize-encodings, parse_spki_der-out_of_bounds,
}
use pc_unlock_project.Crypto.Signature.{Cng, verify_canonical_signed_message}
use pc_unlock_project.Crypto.Signature.Laws.{Verifies, verify_canonical_signed_message_iff}
use pc_unlock_project.Tests.Samples.{answer}
use pc_unlock_project.Tests.Codecs.{answer-FitsMessage}

abbrev x : Bytes
x = replicate 32 5

abbrev y : Bytes
y = replicate 32 6

-- A key is its blob, a digest the first bytes of the text, a signature a key and a digest.
abbrev plain_cng : Cng
plain_cng = record {
  Key = Bytes;
  import_key_pair = λ blob. some blob;
  sha256 = λ text. some (take 32 text);
  verify_hash = λ key digest signature. bytes_eq signature (digest ++ digest);
}

normalize-encodings_example :
    (normalize_public_key_to_ecc_blob (x ++ y) ≡ parsed (blob_header ++ (x ++ y)))
    × (normalize_public_key_to_ecc_blob (0x04 ∷ (x ++ y)) ≡ parsed (blob_header ++ (x ++ y)))
    × (normalize_public_key_to_ecc_blob (spki_prefix ++ (x ++ y))
        ≡ parsed (blob_header ++ (x ++ y)))
    × (normalize_public_key_to_ecc_blob (blob_header ++ (x ++ y))
        ≡ parsed (blob_header ++ (x ++ y)))
normalize-encodings_example = normalize-encodings x y refl refl

parse_spki_der-out_of_bounds_example :
    parse_spki_der (0x30 ∷ 0x9B ∷ (replicate 27 0 ++ (0x30 ∷ []))) ≡ out_of_bounds
parse_spki_der-out_of_bounds_example = parse_spki_der-out_of_bounds (replicate 27 0) refl

raw_key : normalize_public_key_to_ecc_blob (x ++ y) ≡ parsed (blob_header ++ (x ++ y))
raw_key = (normalize-encodings x y refl refl).0

verify_canonical_signed_message_iff_example :
    (verify_canonical_signed_message plain_cng (x ++ y) answer (replicate 64 1) ≡ true) ↔ (
      (key : Bytes) × (blob : Bytes) × (digest : Bytes) × Verifies plain_cng
        (x ++ y)
        answer
        (replicate 64 1)
        key
        blob
        digest)
verify_canonical_signed_message_iff_example =
    verify_canonical_signed_message_iff plain_cng (x ++ y) answer (replicate 64 1)
      answer-FitsMessage
