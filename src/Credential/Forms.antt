-- ===== src/Credential/Forms.antt =====
-- windows/credential_provider/MobileUnlockCredential.cpp: the form of what the tile submits.
use pc_unlock_project.Common.{
  is_empty, ℕ, ◌≤◌, ◌≡◌, refl, sym, ap, ◌∙◌, ◌⊎◌, Bool, true, false, not, ◌||◌, ltb, ◌==◌,
  if◌then◌else◌, List, [], ◌∷◌, Option, none, some, Bytes, length, take, length-take, arith, inl,
  inr,
}
use mathlib.Core.Path.{subst}
use pc_unlock_project.Lsa.Logon.{
  logon_buffer_of_memory, lsa_submit_buffer_magic, lsa_submit_buffer_version,
}
use pc_unlock_project.Credential.Tile.{fetch_auth_state, accept_answer, get_serialization}
use pc_unlock_project.Credential.Offers.{
  Event, advised, unadvised, deselected, polled, run, offers, offer_polled, submission_bytes,
  get_serialization-offers,
}

-- A buffer whose form the LSA package accepts.
pub record IsWellFormed (buffer : Bytes) : Type 0 where
  pub size : length buffer ≡ 180
  pub magic : (logon_buffer_of_memory buffer).magic ≡ lsa_submit_buffer_magic
  pub version : (logon_buffer_of_memory buffer).version ≡ lsa_submit_buffer_version

accepted_parts :
    (short bad : Bool) (x buffer : Bytes)
    → (if short then none else if bad then none else some x) ≡ some buffer
    → (short ≡ false) × (bad ≡ false) × (x ≡ buffer)
accepted_parts true bad x buffer e = ground (arith, e)
accepted_parts false true x buffer e = ground (arith, e)
accepted_parts false false x buffer e = (refl, refl, ground (arith, e))

both_equal :
    (m v magic version : ℕ)
    → (not (m == magic) || not (v == version)) ≡ false
    → (m ≡ magic) × (v ≡ version)
both_equal m v magic version h = ground (arith, h)

long_enough : (empty : Bool) (n : ℕ) → (empty || ltb n 180) ≡ false → 180 ≤ n
long_enough empty n h = ground (arith, h)

accepted-IsWellFormed :
    (answer buffer : Bytes) → accept_answer answer ≡ some buffer → IsWellFormed buffer
accepted-IsWellFormed answer buffer e =
    let (long, right, same) = accepted_parts _ _ (take 180 answer) buffer e in
    let (magic, version) = both_equal _ _ lsa_submit_buffer_magic lsa_submit_buffer_version right in
    let room = long_enough (is_empty answer) (length answer) long in
    subst IsWellFormed same
      (record { size = ground (arith, length-take 180 answer); magic = magic; version = version })

polled_either :
    (t token : Option Bytes) (polling stopping reachable : Bool) (buffer : Bytes)
    → (offer_polled t (record {
      token = token;
      polling = polling;
      stopping = stopping;
      reachable = reachable;
    })).token
      ≡ some buffer
    → (token ≡ some buffer) ⊎ (t ≡ some buffer)
polled_either t token polling true reachable buffer e = ground (arith, e)
polled_either t token polling false true buffer e = inr e
polled_either t token polling false false buffer e = inl e

pub fetched-IsWellFormed :
    (connected sent : Bool) (answer : Option Bytes) (buffer : Bytes)
    → fetch_auth_state connected sent answer ≡ some buffer
    → IsWellFormed buffer
unfolding fetch_auth_state
fetched-IsWellFormed connected sent none buffer e = ground (arith, e)
fetched-IsWellFormed true true (some answer) buffer e = accepted-IsWellFormed answer buffer e
fetched-IsWellFormed true false (some answer) buffer e = ground (arith, e)
fetched-IsWellFormed false sent (some answer) buffer e = ground (arith, e)

token-IsWellFormed :
    (factory : Bool) (es : List Event) (buffer : Bytes)
    → (offers factory es).token ≡ some buffer
    → IsWellFormed buffer
token-IsWellFormed factory [] buffer e = ground (arith, e)
token-IsWellFormed factory (advised created ∷ es) buffer e = token-IsWellFormed factory es buffer e
token-IsWellFormed factory (unadvised ∷ es) buffer e = token-IsWellFormed factory es buffer e
token-IsWellFormed factory (deselected ∷ es) buffer e = ground (arith, e)
token-IsWellFormed factory (polled connected sent answer ∷ es) buffer e =
    let o = offers factory es in
    let t = fetch_auth_state connected sent answer in
    elim (polled_either t o.token o.polling o.stopping o.reachable buffer e) [
      | inl before ↦ token-IsWellFormed factory es buffer before
      | inr now ↦ fetched-IsWellFormed connected sent answer buffer now
    ]

-- What is submitted has the size, the magic number and the version that the LSA package tests first.
pub get_serialization-IsWellFormed :
    (factory : Bool) (es : List Event) (status id : ℕ) (buffer : Bytes)
    → (get_serialization status id true (run factory es)).bytes ≡ some buffer
    → IsWellFormed buffer
get_serialization-IsWellFormed factory es status id buffer e =
    token-IsWellFormed factory es buffer (
      submission_bytes status id (offers factory es).token buffer
        (sym (ap (λ q. q.bytes) (get_serialization-offers factory es status id)) ∙ e))
