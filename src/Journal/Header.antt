-- ===== src/Journal/Header.antt =====
-- Reading back the header of a frame of operational_store.cpp.
use Prim.Native.Nat.{bit_or}
use ctm.Prelude.{
  ℕ, ◌*◌, ◌/◌, ◌%◌, ◌^◌, ◌<◌, ◌≡◌, refl, Bool, Bytes, arith, length, if◌then◌else◌, true, false,
}
use ctm.Prelude.Bits.{bit_or-shifted}
use ctm.Journal.Frame.{
  frame_magic, frame_version, get_u16, get_u32, get_u64, frame_crc, encode_header,
}

first_byte : (v : ℕ) → bit_or 0 (v / 1 % 256 * 1) ≡ v % 2 ^ 8
first_byte v = omega (arith, bit_or-shifted 0 0 (v / 1 % 256) (omega arith))

byte8 : (v : ℕ) → bit_or (v % 2 ^ 8) (v / 2 ^ 8 % 256 * 2 ^ 8) ≡ v % 2 ^ 16
byte8 v = omega (arith, bit_or-shifted 8 (v % 2 ^ 8) (v / 2 ^ 8 % 256) (omega arith))

byte16 : (v : ℕ) → bit_or (v % 2 ^ 16) (v / 2 ^ 16 % 256 * 2 ^ 16) ≡ v % 2 ^ 24
byte16 v = omega (arith, bit_or-shifted 16 (v % 2 ^ 16) (v / 2 ^ 16 % 256) (omega arith))

byte24 : (v : ℕ) → bit_or (v % 2 ^ 24) (v / 2 ^ 24 % 256 * 2 ^ 24) ≡ v % 2 ^ 32
byte24 v = omega (arith, bit_or-shifted 24 (v % 2 ^ 24) (v / 2 ^ 24 % 256) (omega arith))

byte32 : (v : ℕ) → bit_or (v % 2 ^ 32) (v / 2 ^ 32 % 256 * 2 ^ 32) ≡ v % 2 ^ 40
byte32 v = omega (arith, bit_or-shifted 32 (v % 2 ^ 32) (v / 2 ^ 32 % 256) (omega arith))

byte40 : (v : ℕ) → bit_or (v % 2 ^ 40) (v / 2 ^ 40 % 256 * 2 ^ 40) ≡ v % 2 ^ 48
byte40 v = omega (arith, bit_or-shifted 40 (v % 2 ^ 40) (v / 2 ^ 40 % 256) (omega arith))

byte48 : (v : ℕ) → bit_or (v % 2 ^ 48) (v / 2 ^ 48 % 256 * 2 ^ 48) ≡ v % 2 ^ 56
byte48 v = omega (arith, bit_or-shifted 48 (v % 2 ^ 48) (v / 2 ^ 48 % 256) (omega arith))

byte56 : (v : ℕ) → bit_or (v % 2 ^ 56) (v / 2 ^ 56 % 256 * 2 ^ 56) ≡ v % 2 ^ 64
byte56 v = omega (arith, bit_or-shifted 56 (v % 2 ^ 56) (v / 2 ^ 56 % 256) (omega arith))

frame_crc-lt : (sequence : ℕ) (kind encoded : Bytes) → frame_crc sequence kind encoded < 2 ^ 32
unfolding frame_crc
frame_crc-lt sequence kind encoded = omega arith

module _ (synchronize : Bool) (sequence : ℕ) (kind encoded : Bytes) where
  abbrev header : Bytes
  header = encode_header synchronize sequence kind encoded

  pub header-magic : get_u32 header 0 ≡ frame_magic
  unfolding encode_header get_u32
  header-magic = refl

  pub header-version : get_u16 header 4 ≡ frame_version
  unfolding encode_header get_u16
  header-version = refl

  pub header-kind : length kind < 2 ^ 16 → get_u16 header 6 ≡ length kind
  unfolding encode_header get_u16
  header-kind h = omega (arith, byte8 (length kind % 2 ^ 16))

  pub header-payload : length encoded < 2 ^ 32 → get_u32 header 8 ≡ length encoded
  unfolding encode_header get_u32
  header-payload h =
      let v = length encoded % 2 ^ 32 in
      rw (first_byte v, byte8 v, byte16 v, byte24 v) (omega arith)

  pub header-flags : get_u32 header 12 ≡ (if synchronize then 1 else 0)
  unfolding encode_header get_u32
  header-flags =
      elim synchronize
        as (λ b. get_u32 (encode_header b sequence kind encoded) 12 ≡ (if b then 1 else 0)) [
          | true ↦ refl
          | false ↦ refl
        ]

  pub header-sequence : sequence < 2 ^ 64 → get_u64 header 16 ≡ sequence
  unfolding encode_header get_u64
  header-sequence h =
      rw
        (
          first_byte sequence,
          byte8 sequence,
          byte16 sequence,
          byte24 sequence,
          byte32 sequence,
          byte40 sequence,
          byte48 sequence,
          byte56 sequence,
        )
        (omega arith)

  pub header-crc : get_u32 header 24 ≡ frame_crc sequence kind encoded
  unfolding encode_header get_u32
  header-crc =
      let v = frame_crc sequence kind encoded in
      rw (first_byte v, byte8 v, byte16 v, byte24 v)
        (omega (arith, frame_crc-lt sequence kind encoded))

  pub header-reserved : get_u32 header 28 ≡ 0
  unfolding encode_header get_u32
  header-reserved = refl

  pub length-header : length header ≡ 32
  unfolding encode_header
  length-header = refl
