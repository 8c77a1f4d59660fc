-- ===== src/Protocol/SignedMessage/Codec.antt =====
-- What the codec of the canonical message promises: its size, and a round trip both ways.
use pc_unlock_project.Common.{
  ℕ, ◌≡◌, false, not, ◌==◌, ==_iff, none, some, Bytes, IsByte, All, length, le_bytes, arith,
  length-append, ap, ◌∙◌, guard_passed, if◌then◌else◌,
}
use pc_unlock_project.Protocol.Types.{byteswap-byteswap, byteswap-lt}
use pc_unlock_project.Protocol.SignedMessage.{
  SignedMessage, message_memory, message_of_memory, net_message, host_message,
  serialize_signed_message, deserialize_signed_message, is_rejected_message,
}
use pc_unlock_project.Protocol.SignedMessage.Layout.{
  FitsMessage, message_of_memory-message_memory, message_memory-message_of_memory,
  message_of_memory-FitsMessage,
}

-- A canonical message takes exactly 88 bytes.
pub length-serialize_signed_message :
    (m : SignedMessage) → FitsMessage m → length (serialize_signed_message m) ≡ 88
unfolding serialize_signed_message le_bytes
length-serialize_signed_message m f =
    simp length-append (omega (arith, f.server_identity, f.device_identity, f.nonce))

net_message-FitsMessage : (m : SignedMessage) → FitsMessage m → FitsMessage (net_message m)
unfolding net_message
net_message-FitsMessage m f = record {
  protocol_version = byteswap-lt 2 m.protocol_version;
  server_identity = f.server_identity;
  device_identity = f.device_identity;
  operation = byteswap-lt 2 m.operation;
  request_id = byteswap-lt 4 m.request_id;
  session_id = byteswap-lt 8 m.session_id;
  nonce = f.nonce;
  timestamp = byteswap-lt 8 m.timestamp;
}

host_message-FitsMessage : (m : SignedMessage) → FitsMessage m → FitsMessage (host_message m)
unfolding host_message net_message
host_message-FitsMessage m f = net_message-FitsMessage m f

host_message-net_message : (m : SignedMessage) → FitsMessage m → host_message (net_message m) ≡ m
unfolding host_message net_message
host_message-net_message m f = λ i. record m {
  protocol_version = byteswap-byteswap 2 m.protocol_version f.protocol_version i;
  operation = byteswap-byteswap 2 m.operation f.operation i;
  request_id = byteswap-byteswap 4 m.request_id f.request_id i;
  session_id = byteswap-byteswap 8 m.session_id f.session_id i;
  timestamp = byteswap-byteswap 8 m.timestamp f.timestamp i;
}

net_message-host_message : (m : SignedMessage) → FitsMessage m → net_message (host_message m) ≡ m
unfolding host_message net_message
net_message-host_message m f = host_message-net_message m f

deserialize_lem :
    (bs : Bytes)
    → length bs ≡ 88
    → let m = host_message (message_of_memory bs) in
      deserialize_signed_message bs ≡ (if is_rejected_message m then none else some m)
unfolding deserialize_signed_message
deserialize_lem bs h = rw ((==_iff (length bs) 88).1 h)

-- A message that passes the checks is read back from its bytes.
pub deserialize_signed_message-serialize :
    (m : SignedMessage)
    → FitsMessage m
    → is_rejected_message m ≡ false
    → deserialize_signed_message (serialize_signed_message m) ≡ some m
deserialize_signed_message-serialize m f ok =
    let back : host_message (message_of_memory (serialize_signed_message m)) ≡ m =
      unfold serialize_signed_message in
      ap host_message
        (message_of_memory-message_memory (net_message m) (net_message-FitsMessage m f))
      ∙ host_message-net_message m f in
    deserialize_lem (serialize_signed_message m) (length-serialize_signed_message m f)
    ∙ rw (back, ok)

serialize_host :
    (w : Bytes)
    → length w ≡ 88
    → All IsByte w
    → serialize_signed_message (host_message (message_of_memory w)) ≡ w
unfolding serialize_signed_message
serialize_host w n a =
    ap message_memory
      (net_message-host_message (message_of_memory w) (message_of_memory-FitsMessage w n a))
    ∙ message_memory-message_of_memory w n a

whole : (n : ℕ) → not (n == 88) ≡ false → n ≡ 88
whole n h = ground arith

accepted :
    (bs : Bytes) {m : SignedMessage}
    → deserialize_signed_message bs ≡ some m
    → (length bs ≡ 88)
      × (is_rejected_message (host_message (message_of_memory bs)) ≡ false)
      × (host_message (message_of_memory bs) ≡ m)
unfolding deserialize_signed_message
accepted bs e =
    let (size, found) = guard_passed (not (length bs == 88)) _ e in
    let (kept, same) =
      guard_passed (is_rejected_message (host_message (message_of_memory bs))) _ found in
    (whole (length bs) size, kept, cc)

-- What the verifier hashes is what the phone sent: the bytes of an accepted message are the
-- serialization of the message read from them, so no two byte strings are read as one message.
pub serialize_signed_message-deserialize :
    (bs : Bytes) {m : SignedMessage}
    → All IsByte bs
    → deserialize_signed_message bs ≡ some m
    → (serialize_signed_message m ≡ bs) × FitsMessage m × (is_rejected_message m ≡ false)
serialize_signed_message-deserialize bs {m} a e =
    let (n, kept, eq) = accepted bs e in
    (
      rw (← eq) (serialize_host bs n a),
      rw (← eq)
          (host_message-FitsMessage (message_of_memory bs) (message_of_memory-FitsMessage bs n a)),
      rw (← eq) kept,
    )
