-- ===== src/Protocol/Frame/RoundTrip.antt =====
-- What the codec of the frame header promises: network byte order, and a round trip both ways.
use pc_unlock_project.Common.{
  ℕ, ◌≡◌, ◌≤◌, ◌<◌, ◌^◌, refl, false, ◌++◌, reverse, none, some, Bytes, IsByte, All, length, take,
  drop, le_bytes, from_le, arith, length-append, length-take, length-drop, le_bytes-from_le,
  from_le-le_bytes, from_le-lt, All-take, All-drop, take-append, ap, ◌∙◌, Bool-cases, inl, inr, ltb,
  ltb→lt, guard_passed, if◌then◌else◌, ◌+◌, take-split, take_all,
}
use pc_unlock_project.Protocol.Types.{
  frame_header_size, le_bytes-byteswap, byteswap-byteswap, byteswap-lt,
}
use pc_unlock_project.Protocol.Frame.{
  FrameHeader, header_memory, header_of_memory, net_header, host_header, serialize_frame_header,
  deserialize_frame_header, is_rejected_header, member,
}

-- Every member fits its C++ type.
pub record FitsHeader (h : FrameHeader) : Type 0 where
  pub magic : h.magic < 256 ^ 2
  pub major_version : h.major_version < 256 ^ 1
  pub minor_version : h.minor_version < 256 ^ 1
  pub message_type : h.message_type < 256 ^ 2
  pub reserved : h.reserved < 256 ^ 2
  pub message_id : h.message_id < 256 ^ 4
  pub payload_length : h.payload_length < 256 ^ 4
  pub sequence_number : h.sequence_number < 256 ^ 8

-- The bytes of `v` in network order.
abbrev pub be_bytes : ℕ → ℕ → Bytes
be_bytes k v = reverse (le_bytes k v)

-- The wire holds the members in order, each in network byte order.
serialize_frame_header-be_bytes :
    (h : FrameHeader)
    → serialize_frame_header h
      ≡ be_bytes 2 h.magic
        ++ (le_bytes 1 h.major_version
            ++ (le_bytes 1 h.minor_version
                ++ (be_bytes 2 h.message_type
                    ++ (be_bytes 2 h.reserved
                        ++ (be_bytes 4 h.message_id
                            ++ (be_bytes 4 h.payload_length ++ be_bytes 8 h.sequence_number))))))
unfolding serialize_frame_header
serialize_frame_header-be_bytes h = simp le_bytes-byteswap

pub length-serialize_frame_header :
    (h : FrameHeader) → length (serialize_frame_header h) ≡ frame_header_size
unfolding serialize_frame_header le_bytes
length-serialize_frame_header h = refl

header_of_memory-header_memory :
    (n : FrameHeader) → FitsHeader n → header_of_memory (header_memory n) ≡ n
unfolding header_of_memory header_memory le_bytes from_le
header_of_memory-header_memory n f = λ i. record {
  magic = from_le-le_bytes 2 n.magic f.magic i;
  major_version = from_le-le_bytes 1 n.major_version f.major_version i;
  minor_version = from_le-le_bytes 1 n.minor_version f.minor_version i;
  message_type = from_le-le_bytes 2 n.message_type f.message_type i;
  reserved = from_le-le_bytes 2 n.reserved f.reserved i;
  message_id = from_le-le_bytes 4 n.message_id f.message_id i;
  payload_length = from_le-le_bytes 4 n.payload_length f.payload_length i;
  sequence_number = from_le-le_bytes 8 n.sequence_number f.sequence_number i;
}

net_header-FitsHeader : (h : FrameHeader) → FitsHeader h → FitsHeader (net_header h)
unfolding net_header
net_header-FitsHeader h f = record {
  magic = byteswap-lt 2 h.magic;
  major_version = f.major_version;
  minor_version = f.minor_version;
  message_type = byteswap-lt 2 h.message_type;
  reserved = byteswap-lt 2 h.reserved;
  message_id = byteswap-lt 4 h.message_id;
  payload_length = byteswap-lt 4 h.payload_length;
  sequence_number = byteswap-lt 8 h.sequence_number;
}

host_header-net_header : (h : FrameHeader) → FitsHeader h → host_header (net_header h) ≡ h
unfolding host_header net_header
host_header-net_header h f = λ i. record {
  magic = byteswap-byteswap 2 h.magic f.magic i;
  major_version = h.major_version;
  minor_version = h.minor_version;
  message_type = byteswap-byteswap 2 h.message_type f.message_type i;
  reserved = byteswap-byteswap 2 h.reserved f.reserved i;
  message_id = byteswap-byteswap 4 h.message_id f.message_id i;
  payload_length = byteswap-byteswap 4 h.payload_length f.payload_length i;
  sequence_number = byteswap-byteswap 8 h.sequence_number f.sequence_number i;
}

deserialize_lem :
    (bs : Bytes)
    → 24 ≤ length bs
    → let h = host_header (header_of_memory (take 24 bs)) in
      deserialize_frame_header bs ≡ (if is_rejected_header h then none else some h)
unfolding deserialize_frame_header
deserialize_lem bs h = elim (Bool-cases (ltb (length bs) 24)) [
  | inl short ↦ absurd (omega (arith, ltb→lt (length bs) 24 short))
  | inr long ↦ rw long
]

-- Reading back a header that passes the checks gives the header, whatever follows it.
pub deserialize_frame_header-serialize :
    (h : FrameHeader) (rest : Bytes)
    → FitsHeader h
    → is_rejected_header h ≡ false
    → deserialize_frame_header (serialize_frame_header h ++ rest) ≡ some h
deserialize_frame_header-serialize h rest f ok =
    let n : length (serialize_frame_header h) ≡ 24 = length-serialize_frame_header h in
    let front : take 24 (serialize_frame_header h ++ rest) ≡ serialize_frame_header h =
      take-append 24 (serialize_frame_header h) rest n in
    let back : host_header (header_of_memory (serialize_frame_header h)) ≡ h =
      unfold serialize_frame_header in
      ap host_header (header_of_memory-header_memory (net_header h) (net_header-FitsHeader h f))
      ∙ host_header-net_header h f in
    deserialize_lem (serialize_frame_header h ++ rest)
      (omega (arith, length-append (serialize_frame_header h) rest))
    ∙ rw (front, back, ok)

le_bytes-member :
    (i k : ℕ) (w : Bytes)
    → i + k ≤ length w
    → All IsByte w
    → le_bytes k (member i k w) ≡ take k (drop i w)
le_bytes-member i k w h a =
    let n : length (take k (drop i w)) ≡ k =
      omega (arith, length-take k (drop i w), length-drop i w) in
    rw n at (le_bytes-from_le (take k (drop i w)) (All-take IsByte k _ (All-drop IsByte i w a)))

header_memory-header_of_memory :
    (w : Bytes) → length w ≡ 24 → All IsByte w → header_memory (header_of_memory w) ≡ w
unfolding header_memory header_of_memory
header_memory-header_of_memory w n a =
    simp
      (
        le_bytes-member 0 2 w (omega arith) a,
        le_bytes-member 2 1 w (omega arith) a,
        le_bytes-member 3 1 w (omega arith) a,
        le_bytes-member 4 2 w (omega arith) a,
        le_bytes-member 6 2 w (omega arith) a,
        le_bytes-member 8 4 w (omega arith) a,
        le_bytes-member 12 4 w (omega arith) a,
        le_bytes-member 16 8 w (omega arith) a,
      )
      (rw
        (
          take-split 12 4 8 w,
          take-split 8 4 12 w,
          take-split 6 2 16 w,
          take-split 4 2 18 w,
          take-split 3 1 20 w,
          take-split 2 1 21 w,
          take-split 0 2 22 w,
        )
        (take_all 24 w n))

member-lt : (i k : ℕ) (w : Bytes) → i + k ≤ length w → All IsByte w → member i k w < 256 ^ k
member-lt i k w h a =
    let n : length (take k (drop i w)) ≡ k =
      omega (arith, length-take k (drop i w), length-drop i w) in
    rw n at (from_le-lt (take k (drop i w)) (All-take IsByte k _ (All-drop IsByte i w a)))

header_of_memory-FitsHeader :
    (w : Bytes) → length w ≡ 24 → All IsByte w → FitsHeader (header_of_memory w)
unfolding header_of_memory
header_of_memory-FitsHeader w n a = record {
  magic = member-lt 0 2 w (omega arith) a;
  major_version = member-lt 2 1 w (omega arith) a;
  minor_version = member-lt 3 1 w (omega arith) a;
  message_type = member-lt 4 2 w (omega arith) a;
  reserved = member-lt 6 2 w (omega arith) a;
  message_id = member-lt 8 4 w (omega arith) a;
  payload_length = member-lt 12 4 w (omega arith) a;
  sequence_number = member-lt 16 8 w (omega arith) a;
}

net_header-host_header : (n : FrameHeader) → FitsHeader n → net_header (host_header n) ≡ n
unfolding host_header net_header
net_header-host_header n f = host_header-net_header n f

host_header-FitsHeader : (n : FrameHeader) → FitsHeader n → FitsHeader (host_header n)
unfolding host_header net_header
host_header-FitsHeader n f = net_header-FitsHeader n f

serialize_host :
    (w : Bytes)
    → length w ≡ 24
    → All IsByte w
    → serialize_frame_header (host_header (header_of_memory w)) ≡ w
unfolding serialize_frame_header
serialize_host w n aw =
    ap header_memory
      (net_header-host_header (header_of_memory w) (header_of_memory-FitsHeader w n aw))
    ∙ header_memory-header_of_memory w n aw

accepted :
    (bs : Bytes) {h : FrameHeader}
    → deserialize_frame_header bs ≡ some h
    → (ltb (length bs) 24 ≡ false)
      × (is_rejected_header (host_header (header_of_memory (take 24 bs))) ≡ false)
      × (host_header (header_of_memory (take 24 bs)) ≡ h)
unfolding deserialize_frame_header
accepted bs e =
    let (long, found) = guard_passed (ltb (length bs) 24) _ e in
    let (kept, same) =
      guard_passed (is_rejected_header (host_header (header_of_memory (take 24 bs)))) _ found in
    (long, kept, cc)

-- A header that was accepted fits its types, passes the checks, and is what the first 24 bytes say.
pub serialize_frame_header-deserialize :
    (bs : Bytes) {h : FrameHeader}
    → All IsByte bs
    → deserialize_frame_header bs ≡ some h
    → (serialize_frame_header h ≡ take 24 bs) × FitsHeader h × (is_rejected_header h ≡ false)
serialize_frame_header-deserialize bs {h} a e =
    let (long, kept, eq) = accepted bs e in
    let w : Bytes = take 24 bs in
    let n : length w ≡ 24 = ground (arith, length-take 24 bs) in
    let aw : All IsByte w = All-take IsByte 24 bs a in
    let fits : FitsHeader (header_of_memory w) = header_of_memory-FitsHeader w n aw in
    (
      rw (← eq) (serialize_host w n aw),
      rw (← eq) (host_header-FitsHeader (header_of_memory w) fits),
      rw (← eq) kept,
    )
