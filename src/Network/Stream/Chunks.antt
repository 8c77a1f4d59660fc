-- ===== src/Network/Stream/Chunks.antt =====
-- windows/network/NetworkEngine.cpp: the frames do not depend on how their bytes arrive in chunks.
use pc_unlock_project.Common.{
  ℕ, zero, suc, ◌+◌, ◌≤◌, ◌≡◌, refl, sym, ap, ◌∙◌, true, false, ltb, List, [], ◌∷◌, ◌++◌, Bytes,
  length, take, drop, arith, length-append, length-drop, Option-cases, Bool-cases, inl, inr,
}
use mathlib.Core.List.{append_assoc}
use pc_unlock_project.Protocol.Types.{max_payload_size}
use pc_unlock_project.Protocol.Frame.{deserialize_frame_header}
use pc_unlock_project.Network.Stream.{
  Frame, Received, waits, drops, before, total_message_len, drain, receive,
}
use pc_unlock_project.Network.Stream.Turns.{
  drain_fuel, drain_whole, buffer-le, drain_whole_append, drain_short, drain_bad, drain_over,
  drain_part,
}

-- The frames of one read, then what a later read gives.
abbrev pub before_all : List Frame → Received → Received
before_all [] r = r
before_all (f ∷ fs) r = before f (before_all fs r)

resume : ℕ → Received → Bytes → Received
resume n r c = before_all r.frames (drain n (r.buffer ++ c))

resume_fuel :
    (n m : ℕ) (r : Received) (c : Bytes)
    → length (r.buffer ++ c) ≤ n
    → length (r.buffer ++ c) ≤ m
    → resume n r c ≡ resume m r c
unfolding resume
resume_fuel n m r c h k = ap (before_all r.frames) (drain_fuel n m (r.buffer ++ c) h k)

module _ (n : ℕ) (b c : Bytes) where
  resume-waits : drain n b ≡ waits b → drain n (b ++ c) ≡ resume n (drain n b) c
  unfolding resume
  resume-waits e = rw e refl

  resume-drops :
      drain n b ≡ drops b → (drain n b).is_open ≡ true → drain n (b ++ c) ≡ resume n (drain n b) c
  resume-drops e up = absurd (ground (arith, ap (λ (r : Received). r.is_open) e))

before-resume :
    (n : ℕ) (f : Frame) (r : Received) (c : Bytes)
    → before f (resume n r c) ≡ resume n (before f r) c
unfolding resume
before-resume n f r c = refl

shorter_append :
    (k n : ℕ) (b c : Bytes)
    → ltb (length b) 24 ≡ false
    → length (b ++ c) ≤ suc n
    → ltb (length b) (24 + k) ≡ false
    → length (drop (24 + k) b ++ c) ≤ n
shorter_append k n b c long h whole =
    let long' : 24 + k ≤ length b = ground arith in
    omega (arith, length-append b c, length-append (drop (24 + k) b) c, length-drop (24 + k) b)

buffer_covers : (n m : ℕ) (b c : Bytes) → length (b ++ c) ≤ m → length ((drain n b).buffer ++ c) ≤ m
buffer_covers n m b c h =
    omega (arith, length-append b c, length-append (drain n b).buffer c, buffer-le n b)

drain_append :
    (n : ℕ) (b c : Bytes)
    → length (b ++ c) ≤ n
    → (drain n b).is_open ≡ true
    → drain n (b ++ c) ≡ resume n (drain n b) c
drain_append zero b c h up = unfold drain resume in refl
drain_append (suc n) b c h up = elim (Bool-cases (ltb (length b) 24)) [
  | inl short ↦ resume-waits (suc n) b c (drain_short n b short)
  | inr long ↦ elim (Option-cases (deserialize_frame_header b)) [
    | inl bad ↦ resume-drops (suc n) b c (drain_bad n b long bad) up
    | inr (hd, e) ↦ elim (Bool-cases (ltb max_payload_size hd.payload_length)) [
      | inl over ↦ resume-drops (suc n) b c (drain_over n b hd long e over) up
      | inr small ↦ elim (Bool-cases (ltb (length b) (total_message_len hd))) [
        | inl part ↦ resume-waits (suc n) b c (drain_part n b hd long e small part)
        | inr whole ↦
            let left = drop (total_message_len hd) b in
            let turn = drain_whole n b hd long e small whole in
            let covers : length (left ++ c) ≤ n =
              shorter_append hd.payload_length n b c long h whole in
            let rest : drain n (left ++ c) ≡ resume n (drain n left) c =
              drain_append n left c covers (sym (ap (λ (r : Received). r.is_open) turn) ∙ up) in
            drain_whole_append b c hd n long e small whole
            ∙ ap (before (hd, take hd.payload_length (drop 24 b))) (
                rest
                ∙ resume_fuel n (suc n) (drain n left) c (buffer_covers n n left c covers)
                    (buffer_covers n (suc n) left c (omega arith)))
            ∙ before-resume (suc n) (hd, take hd.payload_length (drop 24 b)) (drain n left) c
            ∙ ap (λ (r : Received). resume (suc n) r c) (sym turn)
      ]
    ]
  ]
]

two_reads :
    (b c : Bytes)
    → (drain (length b) b).is_open ≡ true
    → drain (length (b ++ c)) (b ++ c)
      ≡ resume (length ((drain (length b) b).buffer ++ c)) (drain (length b) b) c
two_reads b c up =
    let n = length (b ++ c) in
    let fuel : drain (length b) b ≡ drain n b =
      drain_fuel (length b) n b (omega arith) (omega (arith, length-append b c)) in
    drain_append n b c (omega arith) (sym (ap (λ (r : Received). r.is_open) fuel) ∙ up)
    ∙ ap (λ (r : Received). resume n r c) (sym fuel)
    ∙ resume_fuel n (length ((drain (length b) b).buffer ++ c)) (drain (length b) b) c
        (buffer_covers (length b) n b c (omega arith)) (omega arith)

-- Two reads give together what one read of all the bytes gives, as long as the first read leaves
-- the connection up: its frames come first, and the bytes it left wait for the second.
pub receive-append :
    (buffer b c : Bytes)
    → (receive buffer b).is_open ≡ true
    → receive buffer (b ++ c)
      ≡ before_all (receive buffer b).frames (receive (receive buffer b).buffer c)
receive-append buffer b c up =
    unfold receive resume in rw (← append_assoc buffer b c) (two_reads (buffer ++ b) c up)
