-- ===== src/Tests/Pipes.antt =====
-- The theorem on the pipe, at a server that answers late.
use pc_unlock_project.Common.{
  ℕ, ◌+◌, ◌-◌, ◌*◌, ◌%◌, ◌^◌, ◌≡◌, ◌⊎◌, refl, true, false, ◌&&◌, ltb, if◌then◌else◌, [], ◌∷◌,
  Option, some, Bytes, arith,
}
use pc_unlock_project.Ipc.Client.{NamedPipeClient, is_available, received, read_message_from_server}
use pc_unlock_project.Ipc.Client.Laws.{IsClock, read_message_from_server-ends}

-- The count wraps after a quarter of a second.
abbrev start : ℕ
start = 2 ^ 32 - 250

abbrev time : ℕ → ℕ
time i = 12 * i

abbrev clock : ℕ → ℕ
clock i = (start + time i) % 2 ^ 32

clock-IsClock : IsClock start time clock
clock-IsClock = record {
  started = refl;
  shown = λ i. refl;
  sleeps = λ i. omega arith;
  wakes = λ i. omega arith;
}

-- Nothing for half a second.
abbrev late : ℕ → Option ℕ
late i = if ltb i 40 then some 0 else some 3

abbrev client : NamedPipeClient
client = record { has_pipe = true }

read_message_from_server-ends_example :
    ((answer : Option Bytes) × (read_message_from_server clock late
          (some (1 ∷ 2 ∷ 3 ∷ []))
          600
          5000
          client
        ≡ some answer))
    × (((true && is_available (late 0)) ≡ false)
        ⊎ (read_message_from_server clock late (some (1 ∷ 2 ∷ 3 ∷ [])) 600 5000 client
            ≡ some (received (some (1 ∷ 2 ∷ 3 ∷ [])))))
read_message_from_server-ends_example =
    read_message_from_server-ends start time clock clock-IsClock late 5000 (omega arith)
      (some (1 ∷ 2 ∷ 3 ∷ [])) 600 client (omega arith) (omega arith)
