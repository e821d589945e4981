-- ===== src/Limine/Endian.antt =====
-- Byte order in limine.c: `endswap16`, `endswap32`, `endswap64` and `ENDSWAP`, and how the host
-- reads and writes a field of a structure that was read into a buffer.
pub mod Swap
use cell.Base.{
  ℕ, zero, suc, ◌+◌, ◌-◌, ◌*◌, ◌/◌, ◌%◌, ◌^◌, bit_and, bit_or, if◌then◌else◌, Bool, true, false,
}

-- `v << k` in a word of `w` bits.
abbrev pub shl : ℕ → ℕ → ℕ → ℕ
shl w v k = v * 2 ^ k % 2 ^ w

-- `value` is promoted to `int`, which has 32 bits.
unfoldable pub endswap16 : ℕ → ℕ
endswap16 value =
    let ret = bit_or 0 (bit_and (value / 2 ^ 8) 0x00ff) in
    bit_or ret (bit_and (shl 32 value 8) 0xff00)

unfoldable pub endswap32 : ℕ → ℕ
endswap32 value =
    let ret₀ = bit_or 0 (bit_and (value / 2 ^ 24) 0x000000ff) in
    let ret₁ = bit_or ret₀ (bit_and (value / 2 ^ 8) 0x0000ff00) in
    let ret₂ = bit_or ret₁ (bit_and (shl 32 value 8) 0x00ff0000) in
    bit_or ret₂ (bit_and (shl 32 value 24) 0xff000000)

unfoldable pub endswap64 : ℕ → ℕ
endswap64 value =
    let ret₀ = bit_or 0 (bit_and (value / 2 ^ 56) 0x00000000000000ff) in
    let ret₁ = bit_or ret₀ (bit_and (value / 2 ^ 40) 0x000000000000ff00) in
    let ret₂ = bit_or ret₁ (bit_and (value / 2 ^ 24) 0x0000000000ff0000) in
    let ret₃ = bit_or ret₂ (bit_and (value / 2 ^ 8) 0x00000000ff000000) in
    let ret₄ = bit_or ret₃ (bit_and (shl 64 value 8) 0x000000ff00000000) in
    let ret₅ = bit_or ret₄ (bit_and (shl 64 value 24) 0x0000ff0000000000) in
    let ret₆ = bit_or ret₅ (bit_and (shl 64 value 40) 0x00ff000000000000) in
    bit_or ret₆ (bit_and (shl 64 value 56) 0xff00000000000000)

-- The integer types that `ENDSWAP` is used at.
pub data Width : Type 0 where
  w8 w16 w32 w64 : Width

abbrev pub bytes_of : Width → ℕ
bytes_of w8 = 1
bytes_of w16 = 2
bytes_of w32 = 4
bytes_of w64 = 8

-- The macro `ENDSWAP`; the first argument is `bigendian`.
unfoldable pub endswap : Bool → Width → ℕ → ℕ
unfolding endswap16 endswap32 endswap64
endswap false w value = value
endswap true w8 value = value
endswap true w16 value = endswap16 value
endswap true w32 value = endswap32 value
endswap true w64 value = endswap64 value

-- The number in `n` bytes, the least significant first. A byte is a `uint8_t`.
unfoldable pub load_le : ℕ → (ℕ → ℕ) → ℕ
load_le zero bytes = 0
load_le (suc n) bytes = bytes 0 % 256 + 256 * load_le n (λ j. bytes (j + 1))

-- The number in `n` bytes, the most significant first.
unfoldable pub load_be : ℕ → (ℕ → ℕ) → ℕ
load_be zero bytes = 0
load_be (suc n) bytes = bytes 0 % 256 * 256 ^ n + load_be n (λ j. bytes (j + 1))

-- What the host reads there.
unfoldable pub load : Bool → Width → (ℕ → ℕ) → ℕ
unfolding load_le load_be
load false w bytes = load_le (bytes_of w) bytes
load true w bytes = load_be (bytes_of w) bytes

-- The bytes that the host writes for a number.
unfoldable pub store : Bool → Width → ℕ → ℕ → ℕ
store false w value j = value / 256 ^ j % 256
store true w value j = value / 256 ^ (bytes_of w - 1 - j) % 256

-- `ENDSWAP(header.field)`, of the field at `offset`.
unfoldable pub field : Bool → Width → (ℕ → ℕ) → ℕ → ℕ
unfolding load endswap
field big w header offset = endswap big w (load big w (λ j. header (offset + j)))
