-- ===== src/Pairing/Identity/RoundTrip.antt =====
-- Device identities as text: the text of an identity is read back as that identity.
use pc_unlock_project.Common.{
  ℕ, zero, suc, ◌≤◌, ◌+◌, ◌*◌, ◌≡◌, refl, true, [], ◌∷◌, ◌++◌, Bytes, IsByte, All, length, get_or,
  take, drop, arith, length-append, length-take, length-drop, take-split, take_all, sym, ◌∙◌,
}
use pc_unlock_project.Text.Hex.{byte_hex, bytes_to_hex, length-bytes_to_hex, sscanf_02x-byte_hex}
use pc_unlock_project.Pairing.Identity.{
  DeviceId, piece, device_id_to_string, strip_dashes, scan_bytes, has_dashes, device_id_from_string,
}
use mathlib.Core.List.{append_assoc}
use native.Mathlib.Nat.{zero-add, suc-add}

dash : (cs : Bytes) → strip_dashes (b'-' ∷ cs) ≡ strip_dashes cs
unfolding strip_dashes
dash cs = refl

strip_dashes-append : (xs ys : Bytes) → strip_dashes (xs ++ ys) ≡ strip_dashes xs ++ strip_dashes ys
unfolding strip_dashes
strip_dashes-append [] ys = refl
strip_dashes-append (x ∷ xs) ys = ground (arith, strip_dashes-append xs ys)

-- No digit is a dash.
strip_dashes-bytes_to_hex : (bs : Bytes) → strip_dashes (bytes_to_hex bs) ≡ bytes_to_hex bs
unfolding strip_dashes bytes_to_hex byte_hex
strip_dashes-bytes_to_hex [] = refl
strip_dashes-bytes_to_hex (b ∷ bs) = ground (arith, strip_dashes-bytes_to_hex bs)

bytes_to_hex-append : (xs ys : Bytes) → bytes_to_hex (xs ++ ys) ≡ bytes_to_hex xs ++ bytes_to_hex ys
unfolding bytes_to_hex
bytes_to_hex-append [] ys = refl
bytes_to_hex-append (x ∷ xs) ys =
    rw (bytes_to_hex-append xs ys)
      (sym (append_assoc (byte_hex x) (bytes_to_hex xs) (bytes_to_hex ys)))

scan_bytes-bytes_to_hex :
    (bs out : Bytes)
    → All IsByte bs
    → length bs ≡ length out
    → scan_bytes (bytes_to_hex bs) out ≡ (true, bs)
unfolding scan_bytes bytes_to_hex
scan_bytes-bytes_to_hex [] [] a n = refl
scan_bytes-bytes_to_hex [] (o ∷ os) a n = absurd (omega arith)
scan_bytes-bytes_to_hex (b ∷ bs) [] a n = absurd (omega arith)
scan_bytes-bytes_to_hex (b ∷ bs) (o ∷ os) a n =
    let skip : drop 2 (byte_hex b ++ bytes_to_hex bs) ≡ bytes_to_hex bs = unfold byte_hex in refl in
    ground (
      arith,
      sscanf_02x-byte_hex b (bytes_to_hex bs) a.0,
      skip,
      scan_bytes-bytes_to_hex bs os a.1 (omega arith),
    )

length-piece : (i n : ℕ) (id : DeviceId) → i + n ≤ length id → length (piece i n id) ≡ 2 * n
length-piece i n id h =
    omega
      (arith, length-bytes_to_hex (take n (drop i id)), length-take n (drop i id), length-drop i id)

pub length-device_id_to_string :
    (id : DeviceId) → length id ≡ 16 → length (device_id_to_string id) ≡ 36
unfolding device_id_to_string
length-device_id_to_string id n = simp length-append (
    omega (
      arith,
      length-piece 0 4 id,
      length-piece 4 2 id,
      length-piece 6 2 id,
      length-piece 8 2 id,
      length-piece 10 6 id,
    ))

-- Without its dashes the text is the 32 digits of the identity.
strip_dashes-device_id_to_string :
    (id : DeviceId) → length id ≡ 16 → strip_dashes (device_id_to_string id) ≡ bytes_to_hex id
unfolding device_id_to_string
strip_dashes-device_id_to_string id n =
    simp (strip_dashes-append, dash, strip_dashes-bytes_to_hex)
      (rw (
        ← bytes_to_hex-append (take 2 (drop 8 id)) (take 6 (drop 10 id)),
        take-split 8 2 6 id,
        ← bytes_to_hex-append (take 2 (drop 6 id)) (take 8 (drop 8 id)),
        take-split 6 2 8 id,
        ← bytes_to_hex-append (take 2 (drop 4 id)) (take 10 (drop 6 id)),
        take-split 4 2 10 id,
        ← bytes_to_hex-append (take 4 id) (take 12 (drop 4 id)),
        take-split 0 4 12 id,
        take_all 16 id n,
      ))

get_or-append :
    (xs : Bytes) (c : ℕ) (ys : Bytes) (i : ℕ) → length xs ≡ i → get_or (xs ++ (c ∷ ys)) i 0 ≡ c
get_or-append [] c ys zero n = refl
get_or-append [] c ys (suc i) n = absurd (omega arith)
get_or-append (x ∷ xs) c ys zero n = absurd (omega arith)
get_or-append (x ∷ xs) c ys (suc i) n = get_or-append xs c ys i (omega arith)

get_or_skip :
    (xs : Bytes) (c : ℕ) (ys : Bytes) (m i : ℕ)
    → length xs ≡ m
    → get_or (xs ++ (c ∷ ys)) (m + suc i) 0 ≡ get_or ys i 0
get_or_skip [] c ys zero i n = rw zero-add
get_or_skip [] c ys (suc m) i n = absurd (omega arith)
get_or_skip (x ∷ xs) c ys zero i n = absurd (omega arith)
get_or_skip (x ∷ xs) c ys (suc m) i n = rw suc-add (get_or_skip xs c ys m i (omega arith))

has_dashes-device_id_to_string :
    (id : DeviceId) → length id ≡ 16 → has_dashes (device_id_to_string id) ≡ true
unfolding device_id_to_string
has_dashes-device_id_to_string id n =
    let p0 = piece 0 4 id in
    let p1 = piece 4 2 id in
    let p2 = piece 6 2 id in
    let p3 = piece 8 2 id in
    let p4 = piece 10 6 id in
    let n0 : length p0 ≡ 8 = length-piece 0 4 id (omega arith) in
    let n1 : length p1 ≡ 4 = length-piece 4 2 id (omega arith) in
    let n2 : length p2 ≡ 4 = length-piece 6 2 id (omega arith) in
    let n3 : length p3 ≡ 4 = length-piece 8 2 id (omega arith) in
    let r3 : Bytes = p3 ++ (b'-' ∷ p4) in
    let r2 : Bytes = p2 ++ (b'-' ∷ r3) in
    let r1 : Bytes = p1 ++ (b'-' ∷ r2) in
    let at8 : get_or (p0 ++ (b'-' ∷ r1)) 8 0 ≡ b'-' = get_or-append p0 b'-' r1 8 n0 in
    let at13 : get_or (p0 ++ (b'-' ∷ r1)) 13 0 ≡ b'-' =
      get_or_skip p0 b'-' r1 8 4 n0 ∙ get_or-append p1 b'-' r2 4 n1 in
    let at18 : get_or (p0 ++ (b'-' ∷ r1)) 18 0 ≡ b'-' =
      get_or_skip p0 b'-' r1 8 9 n0
      ∙ get_or_skip p1 b'-' r2 4 4 n1
      ∙ get_or-append p2 b'-' r3 4 n2 in
    let at23 : get_or (p0 ++ (b'-' ∷ r1)) 23 0 ≡ b'-' =
      get_or_skip p0 b'-' r1 8 14 n0
      ∙ get_or_skip p1 b'-' r2 4 9 n1
      ∙ get_or_skip p2 b'-' r3 4 4 n2
      ∙ get_or-append p3 b'-' p4 4 n3 in
    rw (at8, at13, at18, at23)

-- The text of a 16-byte identity is read back as that identity, whatever `outId` held before.
pub device_id_from_string-to_string :
    (id out : DeviceId)
    → length id ≡ 16
    → length out ≡ 16
    → All IsByte id
    → device_id_from_string (device_id_to_string id) out ≡ (true, id)
unfolding device_id_from_string
device_id_from_string-to_string id out n o a =
    let size : length (bytes_to_hex id) ≡ 32 = omega (arith, length-bytes_to_hex id) in
    ground (
      arith,
      length-device_id_to_string id n,
      has_dashes-device_id_to_string id n,
      strip_dashes-device_id_to_string id n,
      size,
      scan_bytes-bytes_to_hex id out a (omega arith),
    )

-- So two identities with the same text are the same identity.
device_id_to_string-injective :
    (id other : DeviceId)
    → length id ≡ 16
    → length other ≡ 16
    → All IsByte id
    → All IsByte other
    → device_id_to_string id ≡ device_id_to_string other
    → id ≡ other
device_id_to_string-injective id other n m a b e =
    cc (device_id_from_string-to_string id id n n a, device_id_from_string-to_string other id m n b)
