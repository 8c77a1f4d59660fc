-- ===== src/Text/After.antt =====
-- The text behind the first occurrence of a pattern, and before the first of some chars, as the JSON
-- readers of the program take values out: `find`, `find_first_of` and `substr`.
use pc_unlock_project.Common.{
  ℕ, suc, ◌+◌, ◌≡◌, ◌≢◌, refl, ap, ◌∙◌, Bool, true, false, not, ◌&&◌, ◌==◌, if◌then◌else◌, [], ◌∷◌,
  ◌++◌, Option, none, some, Bytes, All, length, drop, drop-append, arith,
}
use mathlib.Core.Option.{map as map_option}
use pc_unlock_project.Text.Search.{
  starts_with, find_text, next_position, find_text-front, find_text-later,
}

abbrev from_position : ℕ → Bytes → Option ℕ → Option Bytes
from_position size s none = none
from_position size s (some pos) = some (drop (pos + size) s)

unfoldable pub text_after : Bytes → Bytes → Option Bytes
text_after pattern s = from_position (length pattern) s (find_text pattern s)

unfoldable pub text_before : (ℕ → Bool) → Bytes → Option Bytes
text_before stops [] = none
text_before stops (c ∷ cs) =
    let rest = map_option (◌∷◌ c) (text_before stops cs) in if stops c then some [] else rest

both : (a b : Bool) → (a && b) ≡ true → (a ≡ true) × (b ≡ true)
both a b h = ground arith

starts_with-append : (p rest : Bytes) → starts_with p (p ++ rest) ≡ true
unfolding starts_with
starts_with-append [] rest = refl
starts_with-append (c ∷ cs) rest = ground (arith, starts_with-append cs rest)

-- The pattern is at the front.
pub text_after-found : (c : ℕ) (p rest : Bytes) → text_after (c ∷ p) (c ∷ p ++ rest) ≡ some rest
unfolding text_after
text_after-found c p rest =
    let size : 0 + length (c ∷ p) ≡ length (c ∷ p) = omega arith in
    ap (from_position (length (c ∷ p)) (c ∷ p ++ rest))
      (find_text-front (c ∷ p) c (p ++ rest) (starts_with-append (c ∷ p) rest))
    ∙ ap (λ n. some (drop n (c ∷ p ++ rest))) size
    ∙ ap some (drop-append (length (c ∷ p)) (c ∷ p) rest refl)

next_rest :
    (size c : ℕ) (s : Bytes) (o : Option ℕ)
    → from_position size (c ∷ s) (next_position o) ≡ from_position size s o
next_rest size c s none = refl
next_rest size c s (some i) =
    let further : suc i + size ≡ suc (i + size) = omega arith in
    ap (λ n. some (drop n (c ∷ s))) further

-- The pattern is not at the front.
pub text_after-later :
    (p : Bytes) (c : ℕ) (s : Bytes)
    → starts_with p (c ∷ s) ≡ false
    → text_after p (c ∷ s) ≡ text_after p s
unfolding text_after
text_after-later p c s e =
    ap (from_position (length p) (c ∷ s)) (find_text-later p c s e)
    ∙ next_rest (length p) c s (find_text p s)

-- The pattern is nowhere in the front `pre` of a text.
abbrev pub clear : Bytes → Bytes → Bytes → Bool
clear p [] rest = true
clear p (c ∷ cs) rest = not (starts_with p (c ∷ cs ++ rest)) && clear p cs rest

pub text_after-clear :
    (p pre rest : Bytes) → clear p pre rest ≡ true → text_after p (pre ++ rest) ≡ text_after p rest
text_after-clear p [] rest h = refl
text_after-clear p (c ∷ cs) rest h =
    let (here, later) = both (not (starts_with p (c ∷ cs ++ rest))) (clear p cs rest) h in
    text_after-later p c (cs ++ rest) (ground arith) ∙ text_after-clear p cs rest later

-- Nor in a front without its first char.
pub clear_without :
    (q : ℕ) (p pre rest : Bytes) → All (λ c. c ≢ q) pre → clear (q ∷ p) pre rest ≡ true
unfolding starts_with
clear_without q p [] rest h = refl
clear_without q p (c ∷ cs) rest h =
    let other : (q == c) ≡ false = ground arith in rw (other, clear_without q p cs rest h.1) refl

-- A text before the first stop.
pub text_before-stop :
    (stops : ℕ → Bool) (s : Bytes) (c : ℕ) (rest : Bytes)
    → All (λ d. stops d ≡ false) s
    → stops c ≡ true
    → text_before stops (s ++ c ∷ rest) ≡ some s
unfolding text_before
text_before-stop stops [] c rest h e = rw e refl
text_before-stop stops (d ∷ ds) c rest h e = rw (h.0, text_before-stop stops ds c rest h.1 e) refl
