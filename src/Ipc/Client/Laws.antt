-- ===== src/Ipc/Client/Laws.antt =====
-- windows/ipc/SecureIPC.cpp: waiting for a message ends.
use pc_unlock_project.Common.{
  ℕ, zero, suc, ◌+◌, ◌*◌, ◌%◌, ◌^◌, ◌≤◌, ◌<◌, ◌≡◌, ◌⊎◌, refl, ap, ◌∙◌, Bool, true, false, ◌&&◌, leb,
  Option, none, some, Bytes, arith, Bool-cases, inl, inr,
}
use pc_unlock_project.Ipc.Client.{
  NamedPipeClient, elapsed, is_available, await, finish_read, received, read_message_from_server,
}

-- A clock that starts at `start`: between two readings the thread sleeps for 10 milliseconds, the
-- clock is at most 16 behind, and the thread runs again within a second.
pub record IsClock (start : ℕ) (time : ℕ → ℕ) (clock : ℕ → ℕ) : Type 0 where
  pub started : time 0 ≡ 0
  pub shown : (i : ℕ) → clock i ≡ (start + time i) % 2 ^ 32
  pub sleeps : (i : ℕ) → 10 * i ≤ time i + 16
  pub wakes : (i : ℕ) → time (i + 1) ≤ time i + 1000

elapsed_lem : (start t : ℕ) → t < 2 ^ 32 → elapsed (start % 2 ^ 32) ((start + t) % 2 ^ 32) ≡ t
elapsed_lem start t h = omega (arith, h)

finish_some :
    (file : Option Bytes) (found : Bool)
    → (answer : Option Bytes) × (finish_read file (some found) ≡ some answer)
finish_some file true = (received file, refl)
finish_some file false = (none, refl)

plus_zero : (n : ℕ) → n + 0 ≡ n
plus_zero n = omega arith

module _ (start : ℕ) (time : ℕ → ℕ) (clock : ℕ → ℕ) (k : IsClock start time clock)
    (peeks : ℕ → Option ℕ) (timeout_ms : ℕ) (short : timeout_ms + 1000 < 2 ^ 32) where
  passed : (i : ℕ) → time i < 2 ^ 32 → elapsed (clock 0) (clock i) ≡ time i
  passed i h =
      let zero_time : clock 0 ≡ start % 2 ^ 32 =
        k.shown 0
        ∙ ap (λ t. (start + t) % 2 ^ 32) k.started
        ∙ ap (λ n. n % 2 ^ 32) (plus_zero start) in
      (λ i1. elapsed (zero_time i1) (k.shown i i1)) ∙ elapsed_lem start (time i) h

  -- Either there are bytes, or the time is over.
  await_ends :
      (fuel i : ℕ)
      → time i < timeout_ms
      → timeout_ms + 16 ≤ 10 * (i + fuel)
      → (found : Bool) × (await clock peeks timeout_ms fuel i ≡ some found)
  unfolding await
  await_ends zero i early enough = absurd (omega (arith, early, enough, k.sleeps i))
  await_ends (suc fuel) i early enough =
      let soon : time (i + 1) < 2 ^ 32 = omega (arith, k.wakes i, early, short) in
      let seen : elapsed (clock 0) (clock (i + 1)) ≡ time (i + 1) = passed (i + 1) soon in
      elim (Bool-cases (is_available (peeks i))) [
        | inl there ↦ (true, rw (there, await) refl)
        | inr empty ↦ elim (Bool-cases (leb timeout_ms (time (i + 1)))) [
          | inl over ↦ (false, rw (empty, await) (rw (seen, over) refl))
          | inr waiting ↦
              let (found, e) =
                await_ends fuel (i + 1) (ground (arith, waiting)) (omega (arith, enough)) in
              (found, rw (empty, await) (rw (seen, waiting) e))
        ]
      ]

  at_once :
      (fuel : ℕ)
      → 0 < fuel
      → is_available (peeks 0) ≡ true
      → await clock peeks timeout_ms fuel 0 ≡ some true
  unfolding await
  at_once zero h there = absurd (omega (arith, h))
  at_once (suc fuel) h there = rw (there, await) refl

  -- A read ends, whatever the server does: on a clock that runs, with a timeout that is not 0 and
  -- shorter than 49 days, it takes at most one turn for each 10 milliseconds of the timeout and two more.
  -- Bytes that are there at once are read.
  pub read_message_from_server-ends :
      (file : Option Bytes) (fuel : ℕ) (c : NamedPipeClient)
      → 0 < timeout_ms
      → timeout_ms + 16 ≤ 10 * fuel
      → ((answer : Option Bytes) × (read_message_from_server clock peeks file fuel timeout_ms c
            ≡ some answer))
        × (((c.has_pipe && is_available (peeks 0)) ≡ false)
            ⊎ (read_message_from_server clock peeks file fuel timeout_ms c ≡ some (received file)))
  unfolding read_message_from_server
  read_message_from_server-ends file fuel c real enough = elim (Bool-cases c.has_pipe) [
    | inr closed ↦ ((none, rw (closed, read_message_from_server) refl), inl (rw closed refl))
    | inl ready ↦
        let (found, e) =
          await_ends fuel 0 (omega (arith, real, k.started)) (omega (arith, enough)) in
        let (answer, f) = finish_some file found in
        (
          (answer, rw (ready, e, read_message_from_server) f),
          elim (Bool-cases (is_available (peeks 0))) [
            | inr empty ↦ inl (rw (ready, empty) refl)
            | inl there ↦ inr (
                rw (ready, at_once fuel (omega (arith, enough)) there, read_message_from_server)
                  refl)
          ],
        )
  ]
