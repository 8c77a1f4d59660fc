-- ===== src/Tests/Samples.antt =====
-- A paired device, a registry that holds it, and a signature scheme for the tests.
use pc_unlock_project.Common.{
  ℕ, suc, Bool, true, ◌&&◌, ◌==◌, if◌then◌else◌, List, [], ◌∷◌, none, some, Bytes, bytes_eq, codes,
  replicate, get_or,
}
use pc_unlock_project.Common.Assoc.{find, insert, erase, bytes_Eq}
use pc_unlock_project.Protocol.Types.{opcode, auth_response, auth_request}
use pc_unlock_project.Protocol.Frame.{FrameHeader, default_header}
use pc_unlock_project.Protocol.SignedMessage.{SignedMessage, default_message}
use pc_unlock_project.Pairing.Identity.{DeviceId, device_id_to_string}
use pc_unlock_project.Pairing.Record.{DeviceRecord, Devices, status_active}

abbrev pub phone : DeviceId
phone = replicate 16 0x11

abbrev pub phone_text : Bytes
phone_text = codes "11111111-1111-1111-1111-111111111111"

abbrev pub phone_record : DeviceRecord
phone_record = record {
  device_id = phone;
  device_name = codes "Pixel";
  account_sid = codes "S-1-5-21";
  public_key = 4 ∷ [];
  pair_status = status_active;
  paired_time = record { high = 1; low = 0 };
  last_seen = record { high = 1; low = 0 };
}

abbrev pub Records : Type 0
Records = List (Bytes × DeviceRecord)

abbrev pub seen : Bytes → Records → Records
seen id m = elim (find id m) [
  | none ↦ m
  | some r ↦ insert id (record r { last_seen = record { high = 2; low = 0 } }) m
]

abbrev pub written : DeviceRecord → Records → Bool × Records
written r m = (true, insert (device_id_to_string r.device_id) r m)

abbrev pub deleted : Bytes → Records → Bool × Records
deleted id m = (true, erase id m)

abbrev pub counted : Bytes → Records → ℕ
counted sid [] = 0
counted sid ((k, r) ∷ m) =
    let rest = counted sid m in
    if r.pair_status == status_active && bytes_eq r.account_sid sid then suc rest else rest

abbrev pub records : Devices
records = record {
  Store = Records;
  read_device_record = λ id m. find id m;
  update_last_seen = seen;
  write_device_record = written;
  delete_device_record = deleted;
  count_active_devices_for_account = counted;
}

abbrev pub one_phone : Records
one_phone = (phone_text, phone_record) ∷ []

-- A signature is the first byte of the key, 64 times.
abbrev pub verifies : Bytes → SignedMessage → Bytes → Bool
verifies key m signature = bytes_eq signature (replicate 64 (get_or key 0 0))

abbrev pub good_signature : Bytes
good_signature = replicate 64 4

abbrev pub nonce : Bytes
nonce = replicate 32 7

abbrev pub answer : SignedMessage
answer = record default_message {
  device_identity = phone;
  operation = opcode auth_response;
  session_id = 1;
  nonce = nonce;
  timestamp = 1000;
}

abbrev pub request : FrameHeader
request = record default_header { message_type = opcode auth_request; message_id = 9 }
