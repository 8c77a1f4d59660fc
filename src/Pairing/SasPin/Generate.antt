-- ===== src/Pairing/SasPin/Generate.antt =====
-- The generation of a PIN: its form, its value, the sampling loop, and the unchecked result of the
-- system's random generator.
use pc_unlock_project.Common.{
  ℕ, zero, suc, ◌-◌, ◌%◌, ◌<◌, ◌≡◌, ◌≢◌, refl, ap, ◌∙◌, [], Bytes, All, length, replicate, arith,
  codes, length-append, All-append, take_all, ◌⊎◌, inl, inr,
}
use pc_unlock_project.Text.Decimal.{
  decimal, IsDigit, value_from, decimal-IsDigit, length-decimal-lt, value_zeros, value-decimal,
}
use pc_unlock_project.Pairing.SasPin.{
  Draw, no_function, call_failed, drawn, after_draw, pin_limit, pin_of, resample, six_digits,
  generate_sas_pin,
}

length-replicate : (n c : ℕ) → length (replicate n c) ≡ n
length-replicate zero c = refl
length-replicate (suc n) c = ap suc (length-replicate n c)

zeros-IsDigit : (n : ℕ) → All IsDigit (replicate n b'0')
zeros-IsDigit zero = tt
zeros-IsDigit (suc n) = (omega arith, zeros-IsDigit n)

-- The form and the value of a PIN of a number below one million.
six_digits_lem :
    (p : ℕ)
    → p < 1000000
    → (length (six_digits p) ≡ 6) × All IsDigit (six_digits p) × (value_from 0 (six_digits p) ≡ p)
unfolding six_digits
six_digits_lem p h =
    let text : Bytes = decimal p in
    let pad : Bytes = replicate (6 - length text) b'0' in
    (
      omega (
        arith,
        length-append pad text,
        length-replicate (6 - length text) b'0',
        length-decimal-lt 5 p,
      ),
      All-append IsDigit pad text (zeros-IsDigit (6 - length text)) (decimal-IsDigit p),
      value_zeros (6 - length text) text ∙ value-decimal p (omega arith),
    )

pin_of_lem :
    (v : ℕ)
    → (length (pin_of v) ≡ 6) × All IsDigit (pin_of v) × (value_from 0 (pin_of v) ≡ v % 1000000)
pin_of_lem v =
    let (size, digits, value) = six_digits_lem (v % 1000000) (omega arith) in
    rw (take_all 6 (six_digits (v % 1000000)) size) (size, digits, value)

of_draw :
    (d : Draw) (v : ℕ)
    → let pin : Bytes = elim d [ no_function ↦ [] | _ ↦ pin_of v ] in
      ((d ≡ no_function) × (pin ≡ []))
      ⊎ ((d ≢ no_function) × (length pin ≡ 6) × All IsDigit pin × (value_from 0 pin ≡ v % 1000000))
of_draw no_function v = inl (refl, refl)
of_draw call_failed v =
    let (size, digits, value) = pin_of_lem v in inr (λ e. cc, size, digits, value)
of_draw (drawn w) v = let (size, digits, value) = pin_of_lem v in inr (λ e. cc, size, digits, value)

-- The PIN is empty exactly if the generator cannot be loaded. Otherwise it consists of six decimal
-- digits, and its number is the last random value modulo one million.
pub generate_sas_pin_lem :
    (draws : ℕ → Draw)
    → let pin = generate_sas_pin draws in
      let v = resample 32 (after_draw 0 (draws 0)) (λ i. draws (suc i)) in
      ((draws 0 ≡ no_function) × (pin ≡ []))
      ⊎ ((draws 0 ≢ no_function)
          × (length pin ≡ 6)
          × All IsDigit pin
          × (value_from 0 pin ≡ v % 1000000))
unfolding generate_sas_pin
generate_sas_pin_lem draws =
    of_draw (draws 0) (resample 32 (after_draw 0 (draws 0)) (λ i. draws (suc i)))

resample_stays : (left v : ℕ) (draws : ℕ → Draw) → v < pin_limit → resample left v draws ≡ v
unfolding resample
resample_stays zero v draws h = refl
resample_stays (suc left) v draws h = ground arith

of_failed_draw :
    (d : Draw) (v : ℕ)
    → d ≡ call_failed
    → v ≡ 0
    → (elim d [ no_function ↦ [] | _ ↦ pin_of v ]) ≡ codes "000000"
unfolding six_digits decimal
of_failed_draw no_function v e z = cc
of_failed_draw call_failed v e z = rw z refl
of_failed_draw (drawn w) v e z = cc

-- If the system's generator is there but fails, its result is not looked at: the PIN is 000000.
generate_sas_pin_unchecked :
    (draws : ℕ → Draw) → draws 0 ≡ call_failed → generate_sas_pin draws ≡ codes "000000"
unfolding generate_sas_pin
generate_sas_pin_unchecked draws e =
    let zero_after : after_draw 0 (draws 0) ≡ 0 = rw e refl in
    of_failed_draw (draws 0) (resample 32 (after_draw 0 (draws 0)) (λ i. draws (suc i))) e
      (rw zero_after (resample_stays 32 0 (λ (i : ℕ). draws (suc i)) (omega arith)))

-- The loop ends with a value below the limit if the value at hand, or one of the next draws that it
-- may make, is below it.
resample-lt-limit :
    (left v : ℕ) (draws : ℕ → Draw) (i w : ℕ)
    → i < left
    → draws i ≡ drawn w
    → w < pin_limit
    → resample left v draws < pin_limit
unfolding resample
resample-lt-limit zero v draws i w h e l = absurd (omega arith)
resample-lt-limit (suc left) v draws zero w h e l =
    ground (arith, resample_stays left (after_draw v (draws 0)) (λ (j : ℕ). draws (suc j)))
resample-lt-limit (suc left) v draws (suc i) w h e l =
    ground (arith, resample-lt-limit left (after_draw v (draws 0)) (λ (j : ℕ). draws (suc j)) i w)
