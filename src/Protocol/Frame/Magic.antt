-- ===== src/Protocol/Frame/Magic.antt =====
-- shared/protocol/ProtocolTypes.h: the first byte of a frame.
use pc_unlock_project.Common.{
  ℕ, ◌%◌, ◌≡◌, refl, sym, ap, ◌∙◌, false, ◌∷◌, some, Bytes, All, IsByte, le_bytes, from_le, arith,
}
use pc_unlock_project.Protocol.Types.{protocol_magic, byteswap, host_to_network16}
use pc_unlock_project.Protocol.Frame.{
  FrameHeader, serialize_frame_header, deserialize_frame_header, is_rejected_header, header_memory,
  net_header,
}
use pc_unlock_project.Protocol.Frame.RoundTrip.{serialize_frame_header-deserialize}

pub first_of_memory :
    (h : FrameHeader)
    → (s : Bytes) × (serialize_frame_header h ≡ (host_to_network16 h.magic % 256) ∷ s)
unfolding serialize_frame_header header_memory net_header le_bytes
first_of_memory h = (_, refl)

pub swapped_magic : host_to_network16 protocol_magic % 256 ≡ 0x4D
unfolding byteswap le_bytes from_le
swapped_magic = refl

first_equal : {a b : ℕ} {s t : Bytes} → a ∷ s ≡ b ∷ t → a ≡ b
first_equal e = ground (arith, e)

accepted_magic : (h : FrameHeader) → is_rejected_header h ≡ false → h.magic ≡ protocol_magic
accepted_magic h e = ground (arith, e)

-- An accepted header starts with the first byte of the magic number.
pub first_byte :
    (c : ℕ) (cs : Bytes) (h : FrameHeader)
    → All IsByte (c ∷ cs)
    → deserialize_frame_header (c ∷ cs) ≡ some h
    → c ≡ 0x4D
first_byte c cs h a e =
    let (same, fits, kept) = serialize_frame_header-deserialize (c ∷ cs) a e in
    let magic = accepted_magic h kept in
    let (s, front) = first_of_memory h in
    sym (first_equal (sym front ∙ same)) ∙ ap (λ m. host_to_network16 m % 256) magic ∙ swapped_magic
