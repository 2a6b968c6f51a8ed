-- ===== src/Wire.antt =====
-- file_protocol.c: big-endian integers, as `memcpy` with `ntohs`, `ntohl`, `htons` and `htonl` read
-- and write them, and common.h: the frame types and the sizes.
pub mod RoundTrip
use cipher_chat.Prelude.{
  ℕ, ◌+◌, ◌*◌, ◌/◌, ◌%◌, ◌^◌, Bool, ◌||◌, ◌==◌, List, [], ◌∷◌, ◌++◌, get_or, drop, leb,
}

abbrev pub u16_mod : ℕ
u16_mod = 2 ^ 16

abbrev pub u32_mod : ℕ
u32_mod = 2 ^ 32

abbrev pub u64_mod : ℕ
u64_mod = 2 ^ 64

abbrev pub buffer_size : ℕ
buffer_size = 1024

abbrev pub message_max_size : ℕ
message_max_size = 65536

abbrev pub frame_max_size : ℕ
frame_max_size = message_max_size + 256

abbrev pub username_size : ℕ
username_size = 32

abbrev pub file_chunk_size : ℕ
file_chunk_size = 900

abbrev pub chat_public_key_size : ℕ
chat_public_key_size = 32

abbrev pub chat_nonce_size : ℕ
chat_nonce_size = 24

abbrev pub chat_mac_size : ℕ
chat_mac_size = 16

abbrev pub chat_overhead : ℕ
chat_overhead = 1 + chat_nonce_size + chat_public_key_size + chat_mac_size

-- `FrameType`: the values of the enumeration. A received type byte may have any value.
abbrev pub frame_file_begin : ℕ
frame_file_begin = 0

abbrev pub frame_file_chunk : ℕ
frame_file_chunk = 1

abbrev pub frame_file_end : ℕ
frame_file_end = 2

abbrev pub frame_file_error : ℕ
frame_file_error = 3

abbrev pub frame_text : ℕ
frame_text = 4

abbrev pub frame_request_pk : ℕ
frame_request_pk = 5

abbrev pub frame_peer_pk : ℕ
frame_peer_pk = 6

abbrev pub frame_ciphertext : ℕ
frame_ciphertext = 7

abbrev pub frame_register_pk : ℕ
frame_register_pk = 8

unfoldable pub is_valid_frame_type : ℕ → Bool
is_valid_frame_type type =
    type == frame_file_begin
    || type == frame_file_chunk
    || type == frame_file_end
    || type == frame_file_error
    || type == frame_request_pk
    || type == frame_peer_pk
    || type == frame_ciphertext
    || type == frame_register_pk
    || type == frame_text

-- The byte at an offset. Every caller tests the length first; past the end the model has 0.
abbrev pub byte : List ℕ → ℕ → ℕ
byte bytes offset = get_or bytes offset 0

unfoldable pub read_u16 : List ℕ → ℕ
read_u16 bytes = byte bytes 0 * 256 + byte bytes 1

unfoldable pub read_u32 : List ℕ → ℕ
read_u32 bytes = byte bytes 0 * 2 ^ 24 + byte bytes 1 * 2 ^ 16 + byte bytes 2 * 2 ^ 8 + byte bytes 3

-- `high << 32 | low`, whose halves share no bit.
unfoldable pub read_u64 : List ℕ → ℕ
unfolding read_u32
read_u64 bytes =
    let high = read_u32 bytes in let low = read_u32 (drop 4 bytes) in high * 2 ^ 32 + low

unfoldable pub write_u16 : ℕ → List ℕ
write_u16 value = (value / 2 ^ 8 % 256) ∷ (value % 256) ∷ []

unfoldable pub write_u32 : ℕ → List ℕ
write_u32 value =
    (value / 2 ^ 24 % 256) ∷ (value / 2 ^ 16 % 256) ∷ (value / 2 ^ 8 % 256) ∷ (value % 256) ∷ []

unfoldable pub write_u64 : ℕ → List ℕ
unfolding write_u32
write_u64 value = write_u32 (value / 2 ^ 32 % u32_mod) ++ write_u32 (value % u32_mod)
