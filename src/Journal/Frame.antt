-- ===== src/Journal/Frame.antt =====
-- src/context_hmi/operational_store.cpp, the frame format: the little-endian fields of the 32-byte
-- header, the CRC-32C of a frame, and the bytes that `append` writes. A byte is a number below 256;
-- `& 0xffU` is `% 256`, and a shift by k is `/ 2 ^ k` or `* 2 ^ k`.
use Prim.Native.Nat.{bit_and, bit_or, bit_xor}
use ctm.Prelude.{
  ℕ, zero, suc, ◌+◌, ◌-◌, ◌*◌, ◌/◌, ◌%◌, ◌^◌, Bool, false, ◌&&◌, ◌||◌, [], ◌∷◌, ◌++◌, Bytes, codes,
  leb, ltb, ◌==◌, if◌then◌else◌, length, set, get_or, replicate, all_of,
}

abbrev pub file_magic : Bytes
file_magic = codes "CHMIJNL1"

abbrev pub frame_magic : ℕ
frame_magic = 0x314d5246

abbrev pub frame_version : ℕ
frame_version = 1

abbrev pub frame_header_size : ℕ
frame_header_size = 32

abbrev pub maximum_kind_bytes : ℕ
maximum_kind_bytes = 64

abbrev pub maximum_configured_payload_bytes : ℕ
maximum_configured_payload_bytes = 256 * 1024 * 1024

-- The loop of `put_u32` and `put_u64`, from `index` on.
unfoldable pub put_bytes : ℕ → ℕ → Bytes → ℕ → ℕ → Bytes
put_bytes zero index output offset value = output
put_bytes (suc rounds) index output offset value =
    put_bytes rounds (suc index) (set output (offset + index) (value / 2 ^ (index * 8) % 256))
      offset value

unfoldable pub put_u16 : Bytes → ℕ → ℕ → Bytes
put_u16 output offset value =
    set (set output offset (value % 256)) (offset + 1) (value / 2 ^ 8 % 256)

unfoldable pub put_u32 : Bytes → ℕ → ℕ → Bytes
unfolding put_bytes
put_u32 output offset value = put_bytes 4 0 output offset value

unfoldable pub put_u64 : Bytes → ℕ → ℕ → Bytes
unfolding put_bytes
put_u64 output offset value = put_bytes 8 0 output offset value

-- The loop of `get_u32` and `get_u64`, from `index` on.
unfoldable pub get_bytes : ℕ → ℕ → ℕ → Bytes → ℕ → ℕ
get_bytes zero index value input offset = value
get_bytes (suc rounds) index value input offset =
    get_bytes rounds (suc index) (bit_or value (get_or input (offset + index) 0 * 2 ^ (index * 8)))
      input offset

unfoldable pub get_u16 : Bytes → ℕ → ℕ
get_u16 input offset = bit_or (get_or input offset 0) (get_or input (offset + 1) 0 * 2 ^ 8)

unfoldable pub get_u32 : Bytes → ℕ → ℕ
unfolding get_bytes
get_u32 input offset = get_bytes 4 0 0 input offset

unfoldable pub get_u64 : Bytes → ℕ → ℕ
unfolding get_bytes
get_u64 input offset = get_bytes 8 0 0 input offset

-- The inner loop of `crc32c_update`; `mask` is all ones or zero, as `0U - (crc & 1U)` is.
unfoldable pub crc32c_bits : ℕ → ℕ → ℕ
crc32c_bits zero crc = crc
crc32c_bits (suc rounds) crc =
    let mask = (2 ^ 32 - bit_and crc 1) % 2 ^ 32 in
    crc32c_bits rounds (bit_xor (crc / 2) (bit_and 0x82f63b78 mask))

unfoldable pub crc32c_update : ℕ → Bytes → ℕ
unfolding crc32c_bits
crc32c_update crc [] = crc
crc32c_update crc (byte ∷ bytes) = crc32c_update (crc32c_bits 8 (bit_xor crc byte)) bytes

-- The bytes of `sequence_bytes`, from `index` on.
unfoldable pub sequence_bytes : ℕ → ℕ → ℕ → Bytes
sequence_bytes zero index sequence = []
sequence_bytes (suc rounds) index sequence =
    sequence / 2 ^ (index * 8) % 256 ∷ sequence_bytes rounds (suc index) sequence

-- `~crc` of a 32-bit word is 2^32 - 1 - crc.
unfoldable pub frame_crc : ℕ → Bytes → Bytes → ℕ
unfolding crc32c_update sequence_bytes
frame_crc sequence kind payload =
    let crc = crc32c_update 0xffff_ffff (sequence_bytes 8 0 sequence) in
    let crc' = crc32c_update crc kind in
    let crc'' = crc32c_update crc' payload in 0xffff_ffff - crc''

unfoldable pub valid_kind : Bytes → Bool
unfolding all_of
valid_kind kind =
    if length kind == 0 || ltb maximum_kind_bytes (length kind)
    then false
    else all_of
        (λ character.
          leb b'a' character && leb character b'z'
          || leb b'0' character && leb character b'9'
          || character == b'_'
          || character == b'.'
          || character == b'-')
        kind

-- The header that `append` builds.
unfoldable pub encode_header : Bool → ℕ → Bytes → Bytes → Bytes
unfolding put_u16 put_u32 put_u64
encode_header synchronize sequence kind encoded =
    let h0 = put_u32 (replicate frame_header_size 0) 0 frame_magic in
    let h1 = put_u16 h0 4 frame_version in
    let h2 = put_u16 h1 6 (length kind % 2 ^ 16) in
    let h3 = put_u32 h2 8 (length encoded % 2 ^ 32) in
    let h4 = put_u32 h3 12 (if synchronize then 1 else 0) in
    let h5 = put_u64 h4 16 sequence in put_u32 h5 24 (frame_crc sequence kind encoded)

-- The bytes of one frame, in the order of the three writes.
unfoldable pub encode_frame : Bool → ℕ → Bytes → Bytes → Bytes
encode_frame synchronize sequence kind encoded =
    encode_header synchronize sequence kind encoded ++ (kind ++ encoded)
