-- ===== src/Limine/Endian/Swap.antt =====
-- Whatever the host's byte order, `ENDSWAP` of a field is the little-endian number of its bytes.
use cell.Base.{ℕ, ◌+◌, ◌*◌, ◌/◌, ◌%◌, ◌^◌, ◌<◌, bit_and, bit_or, Bool, true, false}
use cell.Base.{◌≡◌, refl, ap, ◌∙◌, arith}
use cell.Base.Bits.{bit_and_255, bit_and_shift, bit_or_shift, zero-bit_or}
use cell.Limine.Endian.{
  shl, endswap16, endswap32, endswap64, Width, w8, w16, w32, w64, bytes_of, endswap, load_le,
  load_be, load,
}

-- A byte of a word, by its mask.
masked : (k x : ℕ) → bit_and x (255 * 2 ^ k) ≡ x / 2 ^ k % 256 * 2 ^ k
masked k x = bit_and_shift k x 255 ∙ ap (λ (y : ℕ). y * 2 ^ k) (bit_and_255 (x / 2 ^ k))

-- The byte at bit `k`, put into a number that ends below it.
joined :
    (k low x : ℕ)
    → low < 2 ^ k
    → bit_or low (bit_and x (255 * 2 ^ k)) ≡ low + x / 2 ^ k % 256 * 2 ^ k
joined k low x h = ap (bit_or low) (masked k x) ∙ bit_or_shift k low (x / 2 ^ k % 256) h

first : (x : ℕ) → bit_or 0 (bit_and x 255) ≡ x % 256
first x = zero-bit_or (bit_and x 255) ∙ bit_and_255 x

endswap16-eq : (v : ℕ) → v < 2 ^ 16 → endswap16 v ≡ v / 256 % 256 + v % 256 * 2 ^ 8
unfolding endswap16
endswap16-eq v h =
    rw (first (v / 256)) (rw (joined 8 (v / 256 % 256) (shl 32 v 8) (omega arith)) (omega arith))

step :
    (k : ℕ) {low low' : ℕ} (x : ℕ)
    → low ≡ low'
    → low' < 2 ^ k
    → bit_or low (bit_and x (255 * 2 ^ k)) ≡ low' + x / 2 ^ k % 256 * 2 ^ k
step k x e h = ap (λ (l : ℕ). bit_or l (bit_and x (255 * 2 ^ k))) e ∙ joined k _ x h

endswap32-eq :
    (v : ℕ)
    → v < 2 ^ 32
    → endswap32 v
      ≡ v / 2 ^ 24 % 256 + v / 2 ^ 16 % 256 * 2 ^ 8 + v / 2 ^ 8 % 256 * 2 ^ 16 + v % 256 * 2 ^ 24
unfolding endswap32
endswap32-eq v h =
    let e₀ = first (v / 2 ^ 24) in
    let e₁ = step 8 (v / 2 ^ 8) e₀ (omega arith) in
    let e₂ = step 16 (shl 32 v 8) e₁ (omega arith) in
    step 24 (shl 32 v 24) e₂ (omega arith) ∙ omega arith

endswap64-eq :
    (v : ℕ)
    → v < 2 ^ 64
    → endswap64 v
      ≡ v / 2 ^ 56 % 256
        + v / 2 ^ 48 % 256 * 2 ^ 8
        + v / 2 ^ 40 % 256 * 2 ^ 16
        + v / 2 ^ 32 % 256 * 2 ^ 24
        + v / 2 ^ 24 % 256 * 2 ^ 32
        + v / 2 ^ 16 % 256 * 2 ^ 40
        + v / 2 ^ 8 % 256 * 2 ^ 48
        + v % 256 * 2 ^ 56
unfolding endswap64
endswap64-eq v h =
    let e₀ = first (v / 2 ^ 56) in
    let e₁ = step 8 (v / 2 ^ 40) e₀ (omega arith) in
    let e₂ = step 16 (v / 2 ^ 24) e₁ (omega arith) in
    let e₃ = step 24 (v / 2 ^ 8) e₂ (omega arith) in
    let e₄ = step 32 (shl 64 v 8) e₃ (omega arith) in
    let e₅ = step 40 (shl 64 v 24) e₄ (omega arith) in
    let e₆ = step 48 (shl 64 v 40) e₅ (omega arith) in
    step 56 (shl 64 v 56) e₆ (omega arith) ∙ omega arith

swapped16 : (b : ℕ → ℕ) → endswap16 (load_be 2 b) ≡ load_le 2 b
unfolding load_be load_le
swapped16 b = endswap16-eq (load_be 2 b) (omega arith) ∙ omega arith

swapped32 : (b : ℕ → ℕ) → endswap32 (load_be 4 b) ≡ load_le 4 b
unfolding load_be load_le
swapped32 b = endswap32-eq (load_be 4 b) (omega arith) ∙ omega arith

swapped64 : (b : ℕ → ℕ) → endswap64 (load_be 8 b) ≡ load_le 8 b
unfolding load_be load_le
swapped64 b = endswap64-eq (load_be 8 b) (omega arith) ∙ omega arith

swapped8 : (b : ℕ → ℕ) → load_be 1 b ≡ load_le 1 b
unfolding load_be load_le
swapped8 b = omega arith

-- On either kind of host, and at each width: `ENDSWAP` of what the host reads in some bytes is the
-- number that those bytes spell with the least significant first.
pub endswap-load :
    (big : Bool) (w : Width) (bytes : ℕ → ℕ)
    → endswap big w (load big w bytes) ≡ load_le (bytes_of w) bytes
unfolding endswap load
endswap-load false w bytes = refl
endswap-load true w8 bytes = swapped8 bytes
endswap-load true w16 bytes = swapped16 bytes
endswap-load true w32 bytes = swapped32 bytes
endswap-load true w64 bytes = swapped64 bytes
