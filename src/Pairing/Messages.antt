-- ===== src/Pairing/Messages.antt =====
-- windows/pairing/PairingManager.cpp: reading and building the JSON payloads.
use pc_unlock_project.Common.{
  is_empty, ℕ, zero, suc, ◌+◌, ◌/◌, ◌%◌, Bool, false, not, ◌&&◌, ◌||◌, ◌==◌, if◌then◌else◌, [], ◌∷◌,
  ◌++◌, none, some, Bytes, codes, length, take, drop,
}
use pc_unlock_project.Text.Hex.{sscanf_02x}
use pc_unlock_project.Text.Decimal.{decimal}
use pc_unlock_project.Text.Search.{find_text}
use pc_unlock_project.Pairing.SasPin.{sas_pin_length}

unfoldable pub skip_separators : Bytes → Bytes
skip_separators [] = []
skip_separators (c ∷ cs) =
    let rest = skip_separators cs in if c == b' ' || c == b':' then rest else c ∷ cs

unfoldable pub until_quote : Bytes → Bytes
until_quote [] = []
until_quote (c ∷ cs) = let rest = until_quote cs in if c == b'"' then [] else c ∷ rest

abbrev quoted_value : Bytes → Bytes
quoted_value [] = []
quoted_value (c ∷ cs) = if c == b'"' then until_quote cs else []

-- The text between the quotes that follow the first occurrence of the quoted key.
unfoldable pub json_get_string : Bytes → Bytes → Bytes
json_get_string json key =
    let search = b'"' ∷ (key ++ (b'"' ∷ [])) in
    elim (find_text search json) [
      | none ↦ []
      | some pos ↦ quoted_value (skip_separators (drop (pos + length search) json))
    ]

-- The loop, for `n` pairs of digits; the bytes before the first failure are kept.
unfoldable pub hex_pairs : ℕ → Bytes → Bytes
hex_pairs zero hex = []
hex_pairs (suc n) hex =
    let rest = hex_pairs n (drop 2 hex) in
    elim (sscanf_02x hex) [ none ↦ [] | some byte ↦ (byte % 256) ∷ rest ]

unfoldable pub hex_to_bytes : Bytes → Bytes
hex_to_bytes hex = if not (length hex % 2 == 0) then [] else hex_pairs (length hex / 2) hex

pub record PairRequestPayload : Type 0 where
  pub device_id : Bytes
  pub device_name : Bytes
  pub public_key : Bytes
  pub valid : Bool

abbrev no_request : PairRequestPayload
no_request = record { device_id = []; device_name = []; public_key = []; valid = false }

unfoldable pub parse_pair_request : Bytes → PairRequestPayload
parse_pair_request [] = no_request
parse_pair_request (c ∷ cs) =
    let id = json_get_string (c ∷ cs) (codes "deviceId") in
    let name = json_get_string (c ∷ cs) (codes "deviceName") in
    record {
      device_id = id;
      device_name = name;
      public_key = hex_to_bytes (json_get_string (c ∷ cs) (codes "publicKey"));
      valid = length id == 36 && not (is_empty name);
    }

pub record PairConfirmPayload : Type 0 where
  pub device_id : Bytes
  pub sas_pin : Bytes
  pub valid : Bool

abbrev no_confirm : PairConfirmPayload
no_confirm = record { device_id = []; sas_pin = []; valid = false }

unfoldable pub parse_pair_confirm : Bytes → PairConfirmPayload
parse_pair_confirm [] = no_confirm
parse_pair_confirm (c ∷ cs) =
    let id = json_get_string (c ∷ cs) (codes "deviceId") in
    let pin = json_get_string (c ∷ cs) (codes "sasPin") in
    record {
      device_id = id;
      sas_pin = pin;
      valid = length id == 36 && length pin == sas_pin_length;
    }

unfoldable pub build_pair_response : Bytes → Bytes
build_pair_response name = codes "{\"sasRequired\":true,\"serverName\":\"" ++ (name ++ codes "\"}")

unfoldable pub build_pair_complete : Bytes → Bytes
build_pair_complete id = codes "{\"status\":\"PAIRED\",\"deviceId\":\"" ++ (id ++ codes "\"}")

-- The buffer of 512 chars holds 511 of the text.
unfoldable pub build_error_payload : ℕ → Bytes → Bytes
build_error_payload code message = take 511 (
    codes "{\"errorCode\":"
    ++ (decimal code ++ (codes ",\"message\":\"" ++ (message ++ codes "\"}"))))

unfoldable pub build_unpair_response : Bool → Bytes → Bytes
build_unpair_response success id =
    codes "{\"status\":\""
    ++ ((if success then codes "UNPAIRED" else codes "ERROR")
        ++ (codes "\",\"deviceId\":\"" ++ (id ++ codes "\"}")))
