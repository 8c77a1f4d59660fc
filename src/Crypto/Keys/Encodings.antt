-- ===== src/Crypto/Keys/Encodings.antt =====
-- The encodings of a public key: which point they give, and the size of what is imported.
use pc_unlock_project.Common.{
  ℕ, zero, suc, ◌+◌, ◌≡◌, refl, Bool, true, false, ◌&&◌, ltb, ◌==◌, [], ◌∷◌, ◌++◌, Bytes, length,
  take, drop, le_bytes, from_le, arith, ==_iff, length-append, length-take, length-drop,
  take-append, drop-append, take_all, if_cases,
}
use mathlib.Core.Path.{subst}
use native.Mathlib.Nat.{zero-add, suc-add}
use pc_unlock_project.Crypto.Der.{
  Der, rejected, out_of_bounds, parsed, byte_at, expect, read_length, skip_length, skip_algorithm,
  read_point, parse_spki_der, ◌>>=◌, coordinates, within, fits,
}
use pc_unlock_project.Crypto.Keys.{blob_header, is_blob, of_spki, normalize_public_key_to_ecc_blob}

-- SubjectPublicKeyInfo of an uncompressed point on P-256: what stands before the coordinates.
abbrev pub spki_prefix : Bytes
spki_prefix =
    0x30 ∷ 0x59 ∷ 0x30 ∷ 0x13 ∷ 0x06 ∷ 0x07 ∷ 0x2A ∷ 0x86 ∷ 0x48 ∷ 0xCE ∷ 0x3D ∷ 0x02 ∷ 0x01 ∷ 0x06
    ∷ 0x08 ∷ 0x2A ∷ 0x86 ∷ 0x48 ∷ 0xCE ∷ 0x3D ∷ 0x03 ∷ 0x01 ∷ 0x07 ∷ 0x03 ∷ 0x42 ∷ 0x00 ∷ 0x04 ∷ []

length-spki : (x y : Bytes) → length x ≡ 32 → length y ≡ 32 → length (spki_prefix ++ (x ++ y)) ≡ 91
length-spki x y n m = omega (arith, length-append x y)

-- A point in its standard encoding is parsed into its coordinates.
parse_spki_der-encoded :
    (x y : Bytes)
    → length x ≡ 32
    → length y ≡ 32
    → parse_spki_der (spki_prefix ++ (x ++ y)) ≡ parsed (x, y)
unfolding parse_spki_der skip_length skip_algorithm read_point read_length
parse_spki_der-encoded x y n m =
    rw (length-append x y, n, m, take-append 32 x y n, drop-append 32 x y n, take_all 32 y m) refl

-- A point in its four encodings - the coordinates, the uncompressed point, the standard encoding,
-- and the blob of the system itself - gives one and the same blob.
pub normalize-encodings :
    (x y : Bytes)
    → length x ≡ 32
    → length y ≡ 32
    → let blob = blob_header ++ (x ++ y) in
      (normalize_public_key_to_ecc_blob (x ++ y) ≡ parsed blob)
      × (normalize_public_key_to_ecc_blob (0x04 ∷ (x ++ y)) ≡ parsed blob)
      × (normalize_public_key_to_ecc_blob (spki_prefix ++ (x ++ y)) ≡ parsed blob)
      × (normalize_public_key_to_ecc_blob blob ≡ parsed blob)
unfolding normalize_public_key_to_ecc_blob blob_header le_bytes from_le
normalize-encodings [] y n m = absurd (omega arith)
normalize-encodings (a ∷ x) y n m =
    let size : length (x ++ y) ≡ 63 = omega (arith, length-append x y) in
    let whole : take 63 (x ++ y) ≡ x ++ y = take_all 63 (x ++ y) size in
    (
      rw size refl,
      rw (size, whole) refl,
      rw (size, parse_spki_der-encoded (a ∷ x) y n m) refl,
      rw size refl,
    )

byte_at-append :
    (n : ℕ) (xs ys : Bytes) (k : ℕ) → length xs ≡ n → byte_at (xs ++ ys) (n + k) ≡ byte_at ys k
byte_at-append zero [] ys k h = rw zero-add refl
byte_at-append zero (x ∷ xs) ys k h = absurd (omega arith)
byte_at-append (suc n) [] ys k h = absurd (omega arith)
byte_at-append (suc n) (x ∷ xs) ys k h = rw suc-add (byte_at-append n xs ys k (omega arith))

-- Thirty bytes that make the parser read behind the end of its input: the outer length skips to
-- the last byte, which is the tag of the inner sequence, and its length is not there.
pub parse_spki_der-out_of_bounds :
    (filler : Bytes)
    → length filler ≡ 27
    → parse_spki_der (0x30 ∷ 0x9B ∷ (filler ++ (0x30 ∷ []))) ≡ out_of_bounds
unfolding parse_spki_der skip_length skip_algorithm read_length
parse_spki_der-out_of_bounds filler n =
    let last = 0x30 ∷ [] in
    let size : length (filler ++ last) ≡ 28 = omega (arith, length-append filler last) in
    let tag : byte_at (filler ++ last) 27 ≡ parsed 0x30 = byte_at-append 27 filler last 0 n in
    let beyond : byte_at (filler ++ last) 28 ≡ out_of_bounds = byte_at-append 27 filler last 1 n in
    rw (size, tag, beyond) refl

abbrev IsPoint : Der (Bytes × Bytes) → Type 0
IsPoint (parsed (x, y)) = (length x ≡ 32) × (length y ≡ 32)
IsPoint _ = Unit

bind_IsPoint :
    {A : Type 0} (d : Der A) (f : A → Der (Bytes × Bytes))
    → ((a : A) → IsPoint (f a))
    → IsPoint (d >>= f)
bind_IsPoint rejected f h = tt
bind_IsPoint out_of_bounds f h = tt
bind_IsPoint (parsed a) f h = h a

coordinates-IsPoint : (der : Bytes) (point : ℕ) → IsPoint (coordinates der point)
coordinates-IsPoint der point =
    if_cases IsPoint (ltb (length der) (point + 64)) _ _ (λ e. tt)
      (λ e. (
        ground (arith, e, length-take 32 (drop point der), length-drop point der),
        ground (arith, e, length-take 32 (drop (point + 32) der), length-drop (point + 32) der),
      ))

-- The coordinates that are parsed have 32 bytes each.
parse_spki_der-IsPoint : (der : Bytes) → IsPoint (parse_spki_der der)
unfolding parse_spki_der read_point
parse_spki_der-IsPoint der =
    if_cases IsPoint (ltb (length der) 30) _ _ (λ e. tt)
      (λ e. bind_IsPoint (expect der 0 0x30) _ λ t. bind_IsPoint (skip_length der t) _ λ a.
        bind_IsPoint (skip_algorithm der a) _ λ b. bind_IsPoint (expect der b 0x03) _ λ c.
          bind_IsPoint (within der c) _ λ d. bind_IsPoint (read_length der d) _ λ (size, start).
            bind_IsPoint (fits der start size) _ λ f.
              bind_IsPoint (expect der f 0x00) _
                λ g. bind_IsPoint (expect der g 0x04) _ λ h. coordinates-IsPoint der h)

abbrev IsBlob : Der Bytes → Type 0
IsBlob (parsed blob) = length blob ≡ 72
IsBlob _ = Unit

length-blob : (t : Bytes) → length t ≡ 64 → length (blob_header ++ t) ≡ 72
unfolding blob_header le_bytes
length-blob t n = omega (arith, n)

of_spki-IsBlob : (d : Der (Bytes × Bytes)) → IsPoint d → IsBlob (of_spki d)
of_spki-IsBlob rejected h = tt
of_spki-IsBlob out_of_bounds h = tt
of_spki-IsBlob (parsed (x, y)) h = length-blob (x ++ y) (omega (arith, h.0, h.1, length-append x y))

and_left : (a b : Bool) → (a && b) ≡ true → a ≡ true
and_left true b h = refl
and_left false b h = h

normalize-IsBlob : (key : Bytes) → IsBlob (normalize_public_key_to_ecc_blob key)
unfolding normalize_public_key_to_ecc_blob
normalize-IsBlob [] = tt
normalize-IsBlob (b ∷ bs) =
    if_cases IsBlob (is_blob (b ∷ bs)) _ _ (λ e. (==_iff (length (b ∷ bs)) 72).0 (and_left _ _ e))
      (λ e.
        if_cases IsBlob (length (b ∷ bs) == 64) _ _
          (λ f. length-blob (b ∷ bs) ((==_iff (length (b ∷ bs)) 64).0 f))
          (λ f.
            if_cases IsBlob (length (b ∷ bs) == 65 && b == 0x04) _ _
              (λ g. length-blob (take 64 bs) (
                omega (arith, (==_iff (length (b ∷ bs)) 65).0 (and_left _ _ g), length-take 64 bs)))
              (λ g.
                if_cases IsBlob (b == 0x30) _ _
                  (λ k. of_spki-IsBlob (parse_spki_der (b ∷ bs)) (parse_spki_der-IsPoint (b ∷ bs)))
                  (λ k. tt))))

-- Every key that is accepted is handed on as a blob of 72 bytes.
normalize-length :
    (key blob : Bytes) → normalize_public_key_to_ecc_blob key ≡ parsed blob → length blob ≡ 72
normalize-length key blob h = subst IsBlob h (normalize-IsBlob key)
