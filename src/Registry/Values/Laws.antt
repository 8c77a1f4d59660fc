-- ===== src/Registry/Values/Laws.antt =====
-- windows/pairing/DeviceRegistry.cpp: each value is read back from its memory.
use pc_unlock_project.Common.{
  ℕ, zero, suc, ◌+◌, ◌*◌, ◌/◌, ◌%◌, ◌^◌, ◌<◌, ◌≡◌, refl, ap, ◌∙◌, false, ◌==◌, [], ◌∷◌, ◌++◌, Bytes,
  All, length, drop, replicate, le_bytes, from_le, arith, length-le_bytes, from_le-le_bytes,
}
use mathlib.Core.List.{append-nil, append_assoc}
use pc_unlock_project.Pairing.SasPin.{FileTime, to_u64}
use pc_unlock_project.Registry.Values.{
  widen, to_wide, to_narrow, wide_memory, text_value, wide_of_memory, over, file_time_of,
  time_value,
}

abbrev pub IsTextByte : ℕ → Type 0
IsTextByte c = (0 < c) × (c < 256)

drop-replicate : (n : ℕ) → drop {A = ℕ} n (replicate n 0) ≡ []
drop-replicate zero = refl
drop-replicate (suc n) = drop-replicate n

pub over_full : (b : Bytes) (n : ℕ) → length b ≡ n → over b (replicate n 0) ≡ b
over_full b n e = rw (e, drop-replicate n) (append-nil b)

to_narrow-to_wide : (s : Bytes) → All IsTextByte s → to_narrow (to_wide s) ≡ s
unfolding to_narrow to_wide
to_narrow-to_wide [] h = refl
to_narrow-to_wide (c ∷ cs) h =
    let back : widen c % 256 ≡ c = ground arith in rw (back, to_narrow-to_wide cs h.1) refl

unit_read :
    (w : ℕ) (rest : Bytes)
    → 0 < w
    → w < 2 ^ 16
    → wide_of_memory (le_bytes 2 w ++ rest) ≡ w ∷ wide_of_memory rest
unfolding wide_of_memory le_bytes
unit_read w rest real small =
    let unit : w % 256 + 256 * (w / 256 % 256) ≡ w = omega arith in
    let more : (w == 0) ≡ false = ground arith in rw (unit, more) refl

wide_of_memory-wide_memory :
    (s rest : Bytes)
    → All IsTextByte s
    → wide_of_memory (wide_memory (to_wide s) ++ (0 ∷ 0 ∷ rest)) ≡ to_wide s
unfolding wide_memory to_wide
wide_of_memory-wide_memory [] rest h = unfold wide_of_memory in refl
wide_of_memory-wide_memory (c ∷ cs) rest h =
    let tail = wide_memory (to_wide cs) ++ (0 ∷ 0 ∷ rest) in
    unit_read (widen c) tail (ground arith) (ground arith)
    ∙ ap (◌∷◌ (widen c)) (wide_of_memory-wide_memory cs rest h.1)

pub length-text_value : (s : Bytes) → length (text_value s) ≡ 2 * length s + 2
unfolding text_value wide_memory to_wide le_bytes
length-text_value [] = refl
length-text_value (c ∷ cs) = omega (arith, length-text_value cs)

-- A text without zeros is read back, whatever the buffer held behind it.
pub text_read :
    (s buffer : Bytes)
    → All IsTextByte s
    → to_narrow (wide_of_memory (over (text_value s) buffer)) ≡ s
unfolding text_value
text_read s buffer h =
    let rest = drop (length (text_value s)) buffer in
    ap (λ (m : Bytes). to_narrow (wide_of_memory m))
      (append_assoc (wide_memory (to_wide s)) (0 ∷ 0 ∷ []) rest)
    ∙ ap to_narrow (wide_of_memory-wide_memory s rest h)
    ∙ to_narrow-to_wide s h

halves : (h l : ℕ) → l < 2 ^ 32 → ((h * 2 ^ 32 + l) / 2 ^ 32 ≡ h) × ((h * 2 ^ 32 + l) % 2 ^ 32 ≡ l)
halves h l small = omega arith

pub time_read :
    (t : FileTime) → t.high < 2 ^ 32 → t.low < 2 ^ 32 → file_time_of (from_le (time_value t)) ≡ t
unfolding time_value
time_read t h l =
    let (high, low) = halves t.high t.low l in
    ap file_time_of (from_le-le_bytes 8 (to_u64 t) (omega (arith, h, l))) ∙ λ i. record {
      high = high i;
      low = low i;
    }

pub length-time_value : (t : FileTime) → length (time_value t) ≡ 8
unfolding time_value
length-time_value t = length-le_bytes 8 (to_u64 t)
