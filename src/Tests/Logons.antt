-- ===== src/Tests/Logons.antt =====
-- The authentication package at a concrete logon buffer.
use pc_unlock_project.Common.{
  ℕ, ◌≡◌, refl, true, ◌==◌, List, [], ◌∷◌, ◌++◌, some, Bytes, bytes_eq, replicate, from_le,
  le_bytes,
}
use pc_unlock_project.Common.Assoc.{find}
use pc_unlock_project.Protocol.Types.{byteswap, is_valid_message_type}
use pc_unlock_project.Protocol.SignedMessage.{
  SignedMessage, serialize_signed_message, deserialize_signed_message,
}
use pc_unlock_project.Text.Hex.{bytes_to_hex, byte_hex}
use pc_unlock_project.Pairing.Identity.{device_id_to_string}
use pc_unlock_project.Lsa.Package.{
  Heap, Allocator, status_success, allocate_heap, create_unicode_string_on_lsa_heap,
}
use pc_unlock_project.Lsa.Logon.{
  decide, decide_buffer, decide_message, decide_device, Wanted, logon_user_ex2, give_names,
  give_authority, target_user_name,
}
use pc_unlock_project.Tests.Samples.{records, verifies, one_phone, answer, good_signature}

abbrev buffer : Bytes
buffer =
    0x53
    ∷ 0x4C
    ∷ 0x55
    ∷ 0x4D
    ∷ 1
    ∷ 0
    ∷ 0
    ∷ 0
    ∷ (replicate 16 0x11 ++ (replicate 4 0 ++ (serialize_signed_message answer ++ good_signature)))

abbrev all_wanted : Wanted
all_wanted = record { sub_status = true; account_name = true; authority = true }

abbrev empty_heap : Heap
empty_heap = record { blocks = []; next = 0 }

-- The second allocation fails.
abbrev one_block : Allocator
one_block size a = a == 0

abbrev any_block : Allocator
any_block size a = true

abbrev no_account : Bytes → List ℕ
no_account sid = []

logs_on :
    (logon_user_ex2 records verifies no_account any_block all_wanted
      (some buffer)
      one_phone
      empty_heap).status
    ≡ status_success
unfolding logon_user_ex2 decide decide_buffer decide_message decide_device serialize_signed_message
    deserialize_signed_message le_bytes from_le byteswap is_valid_message_type device_id_to_string
    bytes_to_hex byte_hex find bytes_eq give_names give_authority create_unicode_string_on_lsa_heap
    allocate_heap target_user_name
logs_on = refl
