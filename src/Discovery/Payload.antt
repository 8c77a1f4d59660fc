-- ===== src/Discovery/Payload.antt =====
-- windows/network/MdnsResponder.cpp: the JSON of an announcement, written and read.
pub mod RoundTrip
use pc_unlock_project.Common.{
  is_empty, ℕ, ◌+◌, ◌%◌, ◌^◌, Bool, true, false, not, ◌&&◌, ◌||◌, ltb, ◌==◌, if◌then◌else◌, [], ◌∷◌,
  ◌++◌, Option, none, some, Bytes, length, codes,
}
use pc_unlock_project.Protocol.Types.{max_payload_size}
use pc_unlock_project.Text.Decimal.{decimal}
use pc_unlock_project.Text.After.{text_after, text_before}
use pc_unlock_project.Discovery.Numbers.{ℤ, pos, negsuc, stoi}

-- The state is the number of a PcState; a parsed announcement can hold any number.
pub record DiscoveryAnnouncement : Type 0 where
  pub host_name : Bytes
  pub port : ℕ  -- uint16_t
  pub state : ℕ  -- uint32_t
  pub service_type : Bytes

unfoldable pub build_discovery_response_payload : DiscoveryAnnouncement → Bytes
build_discovery_response_payload ann =
    codes "{\"host\":\""
    ++ (ann.host_name
        ++ (codes "\",\"port\":"
            ++ (decimal ann.port
                ++ (codes ",\"state\":"
                    ++ (decimal ann.state
                        ++ (codes ",\"service\":\"" ++ (ann.service_type ++ codes "\"}")))))))

abbrev pub is_quote : ℕ → Bool
is_quote c = c == b'"'

-- `find_first_of(",}")`
abbrev pub ends_number : ℕ → Bool
ends_number c = c == b',' || c == b'}'

abbrev or_empty : Option Bytes → Bytes
or_empty none = []
or_empty (some s) = s

abbrev pub string_at : Option Bytes → Bytes
string_at none = []
string_at (some rest) = or_empty (text_before is_quote rest)

abbrev pub string_pattern : Bytes → Bytes
string_pattern key = b'"' ∷ (key ++ codes "\":\"")

unfoldable pub extract_string : Bytes → Bytes → Bytes
extract_string str key = string_at (text_after (string_pattern key) str)

abbrev or_minus_one : Option ℤ → ℤ
or_minus_one none = negsuc 0
or_minus_one (some n) = n

abbrev number_of : Option Bytes → ℤ
number_of none = negsuc 0
number_of (some digits) = or_minus_one (stoi digits)

abbrev pub number_at : Option Bytes → ℤ
number_at none = negsuc 0
number_at (some rest) = number_of (text_before ends_number rest)

abbrev pub int_pattern : Bytes → Bytes
int_pattern key = b'"' ∷ (key ++ codes "\":")

unfoldable pub extract_int : Bytes → Bytes → ℤ
extract_int str key = number_at (text_after (int_pattern key) str)

abbrev is_bad_port : ℤ → Bool
is_bad_port (pos n) = n == 0 || ltb 65535 n
is_bad_port (negsuc n) = true

abbrev is_negative : ℤ → Bool
is_negative (pos n) = false
is_negative (negsuc n) = true

-- The number, where it is not negative.
abbrev magnitude : ℤ → ℕ
magnitude (pos n) = n
magnitude (negsuc n) = 0

unfoldable pub parse_discovery_response_payload :
    Bytes → DiscoveryAnnouncement → Bool × DiscoveryAnnouncement
parse_discovery_response_payload str out =
    let host = extract_string str (codes "host") in
    let service = extract_string str (codes "service") in
    let port = extract_int str (codes "port") in
    let state = extract_int str (codes "state") in
    if length str == 0 || ltb max_payload_size (length str)
    then (false, out)
    else if is_empty host || (is_bad_port port || (is_empty service || is_negative state))
    then (false, out)
    else (
      true,
      record {
        host_name = host;
        port = magnitude port;
        state = magnitude state;
        service_type = service;
      },
    )
