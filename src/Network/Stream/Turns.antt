-- ===== src/Network/Stream/Turns.antt =====
-- windows/network/NetworkEngine.cpp: one turn of the loop that takes frames out of the bytes.
use pc_unlock_project.Common.{
  ℕ, zero, suc, ◌+◌, ◌≤◌, ◌≡◌, refl, ◌∙◌, true, false, ltb, ◌++◌, none, some, Bytes, length, take,
  drop, arith, length-append, length-drop, take_prefix, drop_prefix, Option-cases, Bool-cases, inl,
  inr, if_cases,
}
use pc_unlock_project.Protocol.Types.{max_payload_size}
use pc_unlock_project.Protocol.Frame.{FrameHeader, deserialize_frame_header}
use pc_unlock_project.Network.Stream.{Received, waits, drops, before, total_message_len, drain}

pub shorter :
    (k n : ℕ) (bytes : Bytes)
    → ltb (length bytes) 24 ≡ false
    → length bytes ≤ suc n
    → length (drop (24 + k) bytes) ≤ n
shorter k n bytes long h =
    let long' : 24 ≤ length bytes = ground arith in omega (arith, length-drop (24 + k) bytes)

-- Any fuel that covers the bytes gives the same.
pub drain_fuel :
    (n m : ℕ) (bytes : Bytes) → length bytes ≤ n → length bytes ≤ m → drain n bytes ≡ drain m bytes
unfolding drain
drain_fuel zero zero bytes h k = refl
drain_fuel zero (suc m) bytes h k =
    let short : ltb (length bytes) 24 ≡ true = ground arith in rw short refl
drain_fuel (suc n) zero bytes h k =
    let short : ltb (length bytes) 24 ≡ true = ground arith in rw short refl
drain_fuel (suc n) (suc m) bytes h k = elim (Bool-cases (ltb (length bytes) 24)) [
  | inl short ↦ rw short refl
  | inr long ↦ elim (Option-cases (deserialize_frame_header bytes)) [
    | inl bad ↦ rw (long, bad) refl
    | inr (hd, e) ↦
        let left = drop (total_message_len hd) bytes in
        let same : drain n left ≡ drain m left =
          drain_fuel n m left (shorter hd.payload_length n bytes long h)
            (shorter hd.payload_length m bytes long k) in
        rw (long, e, same) refl
  ]
]

-- The first 24 bytes decide on the header.
deserialize_prefix :
    (b c : Bytes)
    → ltb (length b) 24 ≡ false
    → deserialize_frame_header (b ++ c) ≡ deserialize_frame_header b
unfolding deserialize_frame_header
deserialize_prefix b c long =
    let enough : 24 ≤ length b = ground arith in
    let long' : ltb (length (b ++ c)) 24 ≡ false = ground (arith, length-append b c) in
    rw (long, long', take_prefix 24 b c enough) refl

-- One turn that finds a whole frame.
pub drain_whole :
    (n : ℕ) (b : Bytes) (hd : FrameHeader)
    → ltb (length b) 24 ≡ false
    → deserialize_frame_header b ≡ some hd
    → ltb max_payload_size hd.payload_length ≡ false
    → ltb (length b) (total_message_len hd) ≡ false
    → drain (suc n) b
      ≡ before (hd, take hd.payload_length (drop 24 b)) (drain n (drop (total_message_len hd) b))
unfolding drain
drain_whole n b hd long e small whole = rw (long, e, small, whole) refl

pub buffer-le : (n : ℕ) (b : Bytes) → length (drain n b).buffer ≤ length b
unfolding drain
buffer-le zero b = omega arith
buffer-le (suc n) b = elim (Bool-cases (ltb (length b) 24)) [
  | inl short ↦ rw short (omega arith)
  | inr long ↦ elim (Option-cases (deserialize_frame_header b)) [
    | inl bad ↦ rw (long, bad) (omega arith)
    | inr (hd, e) ↦
        let left = drop (total_message_len hd) b in
        let less : length (drain n left).buffer ≤ length b =
          omega (arith, buffer-le n left, length-drop (total_message_len hd) b) in
        rw (long, e)
          (if_cases (λ (r : Received). length r.buffer ≤ length b)
            (ltb max_payload_size hd.payload_length) _ _ (λ _. omega arith)
            (λ _.
              if_cases (λ (r : Received). length r.buffer ≤ length b)
                (ltb (length b) (total_message_len hd)) _ _ (λ _. omega arith) (λ _. less)))
  ]
]

-- Bytes after a whole frame leave it whole.
module _ (b c : Bytes) (hd : FrameHeader) where
  after_whole :
      ltb (length b) (total_message_len hd) ≡ false
      → (take hd.payload_length (drop 24 (b ++ c)) ≡ take hd.payload_length (drop 24 b))
        × (drop (total_message_len hd) (b ++ c) ≡ drop (total_message_len hd) b ++ c)
        × (ltb (length (b ++ c)) 24 ≡ false)
        × (ltb (length (b ++ c)) (total_message_len hd) ≡ false)
  after_whole whole =
      let enough : 24 + hd.payload_length ≤ length b = ground arith in
      let longer : length (b ++ c) ≡ length b + length c = length-append b c in
      (
        rw (drop_prefix 24 b c (omega arith))
            (take_prefix hd.payload_length (drop 24 b) c (omega (arith, length-drop 24 b))),
        drop_prefix (24 + hd.payload_length) b c enough,
        ground arith,
        ground arith,
      )

  pub drain_whole_append :
      (n : ℕ)
      → ltb (length b) 24 ≡ false
      → deserialize_frame_header b ≡ some hd
      → ltb max_payload_size hd.payload_length ≡ false
      → ltb (length b) (total_message_len hd) ≡ false
      → drain (suc n) (b ++ c)
        ≡ before
            (hd, take hd.payload_length (drop 24 b))
            (drain n (drop (total_message_len hd) b ++ c))
  drain_whole_append n long e small whole =
      let (payload, left, longer, more) = after_whole whole in
      rw (← payload, ← left)
        (drain_whole n (b ++ c) hd longer (deserialize_prefix b c long ∙ e) small more)

-- The turns that end the loop.
module _ (n : ℕ) (b : Bytes) where
  pub drain_short : ltb (length b) 24 ≡ true → drain (suc n) b ≡ waits b
  unfolding drain
  drain_short short = rw short refl

  pub drain_bad :
      ltb (length b) 24 ≡ false → deserialize_frame_header b ≡ none → drain (suc n) b ≡ drops b
  unfolding drain
  drain_bad long bad = rw (long, bad) refl

  module _ (hd : FrameHeader) (long : ltb (length b) 24 ≡ false)
      (e : deserialize_frame_header b ≡ some hd) where
    pub drain_over : ltb max_payload_size hd.payload_length ≡ true → drain (suc n) b ≡ drops b
    unfolding drain
    drain_over over = rw (long, e, over) refl

    pub drain_part :
        ltb max_payload_size hd.payload_length ≡ false
        → ltb (length b) (total_message_len hd) ≡ true
        → drain (suc n) b ≡ waits b
    unfolding drain
    drain_part small part = rw (long, e, small, part) refl
