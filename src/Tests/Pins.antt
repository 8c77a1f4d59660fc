-- ===== src/Tests/Pins.antt =====
-- The PIN functions at concrete draws, times and texts.
use pc_unlock_project.Common.{
  ℕ, zero, suc, ◌%◌, ◌≡◌, ◌≢◌, ◌⊎◌, [], All, IsByte, length, arith, codes,
}
use pc_unlock_project.Text.Decimal.{IsDigit, value_from}
use pc_unlock_project.Pairing.SasPin.{
  FileTime, Draw, no_function, drawn, after_draw, resample, generate_sas_pin,
}
use pc_unlock_project.Pairing.SasPin.Generate.{generate_sas_pin_lem}

abbrev at : ℕ → FileTime
at n = record { high = 30; low = n }

pin-IsByte : All IsByte (codes "042137")
pin-IsByte =
    (omega arith, (omega arith, (omega arith, (omega arith, (omega arith, (omega arith, tt))))))

-- The first draw is above the limit, the second is not.
abbrev two_draws : ℕ → Draw
two_draws zero = drawn 4294967295
two_draws _ = drawn 1000042

generate_sas_pin_lem_example :
    let pin = generate_sas_pin two_draws in
    let v = resample 32 (after_draw 0 (two_draws 0)) (λ i. two_draws (suc i)) in
    ((two_draws 0 ≡ no_function) × (pin ≡ []))
    ⊎ ((two_draws 0 ≢ no_function)
        × (length pin ≡ 6)
        × All IsDigit pin
        × (value_from 0 pin ≡ v % 1000000))
generate_sas_pin_lem_example = generate_sas_pin_lem two_draws
