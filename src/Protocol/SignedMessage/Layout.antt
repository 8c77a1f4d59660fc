-- ===== src/Protocol/SignedMessage/Layout.antt =====
-- The packed layout of the canonical message: each member is read back from where it is written.
use pc_unlock_project.Common.{
  ℕ, ◌≡◌, ◌≤◌, ◌<◌, ◌^◌, ◌+◌, refl, ◌++◌, Bytes, IsByte, All, length, take, drop, le_bytes, from_le,
  arith, length-le_bytes, length-take, length-drop, le_bytes-from_le, from_le-le_bytes, from_le-lt,
  All-take, All-drop, take-append, drop-append, drop-drop, take-split, take_all, ap, sym, ◌∙◌,
}
use pc_unlock_project.Protocol.SignedMessage.{SignedMessage, message_memory, message_of_memory}

-- Every member fits its C++ type.
pub record FitsMessage (m : SignedMessage) : Type 0 where
  pub protocol_version : m.protocol_version < 256 ^ 2
  pub server_identity : length m.server_identity ≡ 16
  pub device_identity : length m.device_identity ≡ 16
  pub operation : m.operation < 256 ^ 2
  pub request_id : m.request_id < 256 ^ 4
  pub session_id : m.session_id < 256 ^ 8
  pub nonce : length m.nonce ≡ 32
  pub timestamp : m.timestamp < 256 ^ 8

-- Each member lies where the struct has it.
module _ (m : SignedMessage) (f : FitsMessage m) where
  from80 : Bytes
  from80 = le_bytes 8 m.timestamp

  from48 : Bytes
  unfolding from80
  from48 = m.nonce ++ from80

  from40 : Bytes
  unfolding from48
  from40 = le_bytes 8 m.session_id ++ from48

  from36 : Bytes
  unfolding from40
  from36 = le_bytes 4 m.request_id ++ from40

  from34 : Bytes
  unfolding from36
  from34 = le_bytes 2 m.operation ++ from36

  from18 : Bytes
  unfolding from34
  from18 = m.device_identity ++ from34

  from2 : Bytes
  unfolding from18
  from2 = m.server_identity ++ from18

  at2 : drop 2 (message_memory m) ≡ from2
  unfolding message_memory from2
  at2 = drop-append 2 (le_bytes 2 m.protocol_version) _ (length-le_bytes 2 _)

  at18 : drop 18 (message_memory m) ≡ from18
  at18 =
      sym (drop-drop 2 16 (message_memory m))
      ∙ ap (drop 16) at2
      ∙ (unfold from2 in drop-append 16 m.server_identity _ f.server_identity)

  at34 : drop 34 (message_memory m) ≡ from34
  at34 =
      sym (drop-drop 18 16 (message_memory m))
      ∙ ap (drop 16) at18
      ∙ (unfold from18 in drop-append 16 m.device_identity _ f.device_identity)

  at36 : drop 36 (message_memory m) ≡ from36
  at36 =
      sym (drop-drop 34 2 (message_memory m))
      ∙ ap (drop 2) at34
      ∙ (unfold from34 in drop-append 2 (le_bytes 2 m.operation) _ (length-le_bytes 2 _))

  at40 : drop 40 (message_memory m) ≡ from40
  at40 =
      sym (drop-drop 36 4 (message_memory m))
      ∙ ap (drop 4) at36
      ∙ (unfold from36 in drop-append 4 (le_bytes 4 m.request_id) _ (length-le_bytes 4 _))

  at48 : drop 48 (message_memory m) ≡ from48
  at48 =
      sym (drop-drop 40 8 (message_memory m))
      ∙ ap (drop 8) at40
      ∙ (unfold from40 in drop-append 8 (le_bytes 8 m.session_id) _ (length-le_bytes 8 _))

  at80 : drop 80 (message_memory m) ≡ from80
  at80 =
      sym (drop-drop 48 32 (message_memory m))
      ∙ ap (drop 32) at48
      ∙ (unfold from48 in drop-append 32 m.nonce _ f.nonce)

  read_int :
      (k v : ℕ) (bs rest : Bytes)
      → bs ≡ le_bytes k v ++ rest
      → v < 256 ^ k
      → from_le (take k bs) ≡ v
  read_int k v bs rest e h =
      ap from_le (ap (take k) e ∙ take-append k (le_bytes k v) rest (length-le_bytes k v))
      ∙ from_le-le_bytes k v h

  pub message_of_memory-message_memory : message_of_memory (message_memory m) ≡ m
  unfolding message_of_memory message_memory from2
  message_of_memory-message_memory = λ i. record {
    protocol_version = read_int 2 _ _ from2 refl f.protocol_version i;
    server_identity =
        (ap (take 16) at2 ∙ take-append 16 m.server_identity from18 f.server_identity) i;
    device_identity =
        (ap (take 16) at18 ∙ take-append 16 m.device_identity from34 f.device_identity) i;
    operation = read_int 2 _ _ from36 at34 f.operation i;
    request_id = read_int 4 _ _ from40 at36 f.request_id i;
    session_id = read_int 8 _ _ from48 at40 f.session_id i;
    nonce = (ap (take 32) at48 ∙ take-append 32 m.nonce from80 f.nonce) i;
    timestamp =
        (ap from_le (ap (take 8) at80 ∙ take_all 8 (le_bytes 8 m.timestamp) (length-le_bytes 8 _))
            ∙ from_le-le_bytes 8 _ f.timestamp)
          i;
  }

le_bytes_piece :
    (i k : ℕ) (w : Bytes)
    → i + k ≤ length w
    → All IsByte w
    → le_bytes k (from_le (take k (drop i w))) ≡ take k (drop i w)
le_bytes_piece i k w h a =
    let n : length (take k (drop i w)) ≡ k =
      omega (arith, length-take k (drop i w), length-drop i w) in
    rw n at (le_bytes-from_le (take k (drop i w)) (All-take IsByte k _ (All-drop IsByte i w a)))

from_le_piece-lt :
    (i k : ℕ) (w : Bytes) → i + k ≤ length w → All IsByte w → from_le (take k (drop i w)) < 256 ^ k
from_le_piece-lt i k w h a =
    let n : length (take k (drop i w)) ≡ k =
      omega (arith, length-take k (drop i w), length-drop i w) in
    rw n at (from_le-lt (take k (drop i w)) (All-take IsByte k _ (All-drop IsByte i w a)))

length-piece : (i k : ℕ) (w : Bytes) → i + k ≤ length w → length (take k (drop i w)) ≡ k
length-piece i k w h = omega (arith, length-take k (drop i w), length-drop i w)

pub message_memory-message_of_memory :
    (w : Bytes) → length w ≡ 88 → All IsByte w → message_memory (message_of_memory w) ≡ w
unfolding message_memory message_of_memory
message_memory-message_of_memory w n a =
    simp
      (
        le_bytes_piece 0 2 w (omega arith) a,
        le_bytes_piece 34 2 w (omega arith) a,
        le_bytes_piece 36 4 w (omega arith) a,
        le_bytes_piece 40 8 w (omega arith) a,
        le_bytes_piece 80 8 w (omega arith) a,
      )
      (rw
        (
          take-split 48 32 8 w,
          take-split 40 8 40 w,
          take-split 36 4 48 w,
          take-split 34 2 52 w,
          take-split 18 16 54 w,
          take-split 2 16 70 w,
          take-split 0 2 86 w,
        )
        (take_all 88 w n))

pub message_of_memory-FitsMessage :
    (w : Bytes) → length w ≡ 88 → All IsByte w → FitsMessage (message_of_memory w)
unfolding message_of_memory
message_of_memory-FitsMessage w n a = record {
  protocol_version = from_le_piece-lt 0 2 w (omega arith) a;
  server_identity = length-piece 2 16 w (omega arith);
  device_identity = length-piece 18 16 w (omega arith);
  operation = from_le_piece-lt 34 2 w (omega arith) a;
  request_id = from_le_piece-lt 36 4 w (omega arith) a;
  session_id = from_le_piece-lt 40 8 w (omega arith) a;
  nonce = length-piece 48 32 w (omega arith);
  timestamp = from_le_piece-lt 80 8 w (omega arith) a;
}
