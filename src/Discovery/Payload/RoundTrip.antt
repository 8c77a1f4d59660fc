-- ===== src/Discovery/Payload/RoundTrip.antt =====
-- windows/network/MdnsResponder.cpp: an announcement is read back.
use pc_unlock_project.Common.{
  is_empty, ℕ, ◌^◌, ◌≤◌, ◌<◌, ◌≡◌, ◌≢◌, refl, ap, ◌∙◌, true, false, ltb, ◌==◌, [], ◌∷◌, ◌++◌, some,
  Bytes, All, length, codes, arith,
}
use pc_unlock_project.Protocol.Types.{max_payload_size}
use pc_unlock_project.Text.Decimal.{decimal, decimal-IsDigit, IsDigit}
use pc_unlock_project.Text.Search.{starts_with}
use pc_unlock_project.Text.After.{
  text_after, text_after-found, text_after-later, text_after-clear, clear, clear_without,
  text_before-stop,
}
use pc_unlock_project.Discovery.Numbers.{pos, stoi-decimal}
use pc_unlock_project.Discovery.Payload.{
  DiscoveryAnnouncement, build_discovery_response_payload, parse_discovery_response_payload,
  string_pattern, int_pattern, extract_string, extract_int, is_quote, ends_number, string_at,
  number_at,
}

abbrev pub IsNoQuote : ℕ → Type 0
IsNoQuote c = c ≢ b'"'

-- What an announcement must be to be read.
pub record IsPlain (ann : DiscoveryAnnouncement) : Type 0 where
  pub host : ann.host_name ≢ []
  pub host_plain : All IsNoQuote ann.host_name
  pub port_real : 0 < ann.port
  pub port_small : ann.port < 2 ^ 16
  pub state_small : ann.state < 2 ^ 31
  pub service : ann.service_type ≢ []
  pub service_plain : All IsNoQuote ann.service_type
  pub fits : length (build_discovery_response_payload ann) ≤ max_payload_size

digits_plain : (s : Bytes) → All IsDigit s → All IsNoQuote s
digits_plain [] h = tt
digits_plain (c ∷ cs) h = (omega arith, digits_plain cs h.1)

-- A quoted text that a comma follows is not the key `p`.
quoted_apart :
    (p q h rest : Bytes)
    → All IsNoQuote p
    → All IsNoQuote h
    → starts_with (p ++ b'"' ∷ b':' ∷ q) (h ++ b'"' ∷ b',' ∷ rest) ≡ false
unfolding starts_with
quoted_apart [] q [] rest f g = refl
quoted_apart [] q (c ∷ h) rest f g = let other : (b'"' == c) ≡ false = ground arith in rw other refl
quoted_apart (c ∷ p) q [] rest f g = let other : (c == b'"') ≡ false = ground arith in rw other refl
quoted_apart (c ∷ p) q (d ∷ h) rest f g = rw (quoted_apart p q h rest f.1 g.1) (ground arith)

-- The payload behind its host, from the quote that ends it.
abbrev behind_host : DiscoveryAnnouncement → Bytes
behind_host ann =
    codes "\",\"port\":"
    ++ (decimal ann.port
        ++ (codes ",\"state\":"
            ++ (decimal ann.state
                ++ (codes ",\"service\":\"" ++ (ann.service_type ++ codes "\"}")))))

skip_host :
    (p q : Bytes) (ann : DiscoveryAnnouncement)
    → All IsNoQuote p
    → clear
        (b'"' ∷ (p ++ b'"' ∷ b':' ∷ q))
        (codes "{\"host\":")
        (b'"' ∷ (ann.host_name ++ behind_host ann))
      ≡ true
    → All IsNoQuote ann.host_name
    → text_after (b'"' ∷ (p ++ b'"' ∷ b':' ∷ q)) (build_discovery_response_payload ann)
      ≡ text_after (b'"' ∷ (p ++ b'"' ∷ b':' ∷ q)) (behind_host ann)
unfolding build_discovery_response_payload starts_with
skip_host p q ann plain front h =
    let key = b'"' ∷ (p ++ b'"' ∷ b':' ∷ q) in
    text_after-clear key (codes "{\"host\":") (b'"' ∷ (ann.host_name ++ behind_host ann)) front
    ∙ text_after-later key b'"' (ann.host_name ++ behind_host ann)
        (quoted_apart p q ann.host_name _ plain h)
    ∙ text_after-clear key ann.host_name (behind_host ann)
        (clear_without b'"' (p ++ b'"' ∷ b':' ∷ q) ann.host_name (behind_host ann) h)

plain_stops : (s : Bytes) → All IsNoQuote s → All (λ d. is_quote d ≡ false) s
plain_stops [] h = tt
plain_stops (c ∷ cs) h = (ground arith, plain_stops cs h.1)

digits_stops : (s : Bytes) → All IsDigit s → All (λ d. ends_number d ≡ false) s
digits_stops [] h = tt
digits_stops (c ∷ cs) h = (ground arith, digits_stops cs h.1)

decimal_plain : (n : ℕ) → All IsNoQuote (decimal n)
decimal_plain n = digits_plain (decimal n) (decimal-IsDigit n)

-- A number that a comma follows.
number_lem :
    (n : ℕ) (rest : Bytes) → n < 2 ^ 31 → number_at (some (decimal n ++ b',' ∷ rest)) ≡ pos n
number_lem n rest h =
    rw
      (
        text_before-stop ends_number (decimal n) b',' rest
            (digits_stops (decimal n) (decimal-IsDigit n)) refl,
        stoi-decimal n h,
      )
      refl

-- A string that a quote follows.
string_lem : (s rest : Bytes) → All IsNoQuote s → string_at (some (s ++ b'"' ∷ rest)) ≡ s
string_lem s rest h = rw (text_before-stop is_quote s b'"' rest (plain_stops s h) refl) refl

module _ (ann : DiscoveryAnnouncement) (f : IsPlain ann) where
  abbrev behind_state : Bytes
  behind_state = codes ",\"service\":\"" ++ (ann.service_type ++ codes "\"}")

  abbrev behind_port : Bytes
  behind_port = codes ",\"state\":" ++ (decimal ann.state ++ behind_state)

  host_lem : extract_string (build_discovery_response_payload ann) (codes "host") ≡ ann.host_name
  unfolding extract_string build_discovery_response_payload starts_with
  host_lem =
      ap string_at (
        text_after-later (string_pattern (codes "host")) b'{' _ refl
        ∙ text_after-found b'"' (codes "host\":\"") (ann.host_name ++ behind_host ann))
      ∙ string_lem ann.host_name (codes ",\"port\":" ++ (decimal ann.port ++ behind_port))
          f.host_plain

  port_lem : extract_int (build_discovery_response_payload ann) (codes "port") ≡ pos ann.port
  unfolding extract_int build_discovery_response_payload starts_with
  port_lem =
      ap number_at (
        skip_host (codes "port") [] ann (ground arith) refl f.host_plain
        ∙ text_after-clear (int_pattern (codes "port")) (codes "\",") _ refl
        ∙ text_after-found b'"' (codes "port\":") (decimal ann.port ++ behind_port))
      ∙ number_lem ann.port (codes "\"state\":" ++ (decimal ann.state ++ behind_state))
          (omega (arith, f.port_small))

  state_lem : extract_int (build_discovery_response_payload ann) (codes "state") ≡ pos ann.state
  unfolding extract_int build_discovery_response_payload starts_with
  state_lem =
      let key = int_pattern (codes "state") in
      ap number_at (
        skip_host (codes "state") [] ann (ground arith) refl f.host_plain
        ∙ text_after-clear key (codes "\",\"port\":") (decimal ann.port ++ behind_port) refl
        ∙ text_after-clear key (decimal ann.port) behind_port (
            clear_without b'"' (codes "state\":") (decimal ann.port) behind_port
              (decimal_plain ann.port))
        ∙ text_after-later key b',' _ refl
        ∙ text_after-found b'"' (codes "state\":") (decimal ann.state ++ behind_state))
      ∙ number_lem ann.state (codes "\"service\":\"" ++ (ann.service_type ++ codes "\"}"))
          f.state_small

  service_lem :
      extract_string (build_discovery_response_payload ann) (codes "service") ≡ ann.service_type
  unfolding extract_string build_discovery_response_payload starts_with
  service_lem =
      let key = string_pattern (codes "service") in
      let name = codes "service\":\"" in
      ap string_at (
        skip_host (codes "service") (b'"' ∷ []) ann (ground arith) refl f.host_plain
        ∙ text_after-clear key (codes "\",\"port\":") (decimal ann.port ++ behind_port) refl
        ∙ text_after-clear key (decimal ann.port) behind_port
            (clear_without b'"' name (decimal ann.port) behind_port (decimal_plain ann.port))
        ∙ text_after-clear key (codes ",\"state\":") (decimal ann.state ++ behind_state) refl
        ∙ text_after-clear key (decimal ann.state) behind_state
            (clear_without b'"' name (decimal ann.state) behind_state (decimal_plain ann.state))
        ∙ text_after-later key b',' _ refl
        ∙ text_after-found b'"' name (ann.service_type ++ codes "\"}"))
      ∙ string_lem ann.service_type (codes "}") f.service_plain

not_empty : (s : Bytes) → s ≢ [] → is_empty s ≡ false
not_empty [] h = absurd (h refl)
not_empty (c ∷ cs) h = refl

-- An announcement is read back as it was, whatever the result held before: its host and service are
-- not empty and have no quotes, its port is not 0, its state fits an int, and the text has at most 4096
-- bytes.
pub parse_discovery_response_payload-build :
    (ann out : DiscoveryAnnouncement)
    → IsPlain ann
    → parse_discovery_response_payload (build_discovery_response_payload ann) out ≡ (true, ann)
unfolding parse_discovery_response_payload
parse_discovery_response_payload-build ann out f =
    let size = length (build_discovery_response_payload ann) in
    let some_text : (size == 0) ≡ false = unfold build_discovery_response_payload in ground arith in
    let fits : ltb max_payload_size size ≡ false = ground (arith, f.fits) in
    let port1 : (ann.port == 0) ≡ false = ground (arith, f.port_real) in
    let port2 : ltb 65535 ann.port ≡ false = ground (arith, f.port_small) in
    rw
      (
        some_text,
        fits,
        host_lem ann f,
        port_lem ann f,
        service_lem ann f,
        state_lem ann f,
        not_empty ann.host_name f.host,
        port1,
        port2,
        not_empty ann.service_type f.service,
      )
      refl
