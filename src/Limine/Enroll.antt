-- ===== src/Limine/Enroll.antt =====
-- `enroll_config` in limine.c, on the bytes of the executable.
pub mod Search
pub mod Run
pub mod Place
pub mod Calls
pub mod Outcome
pub mod Again
pub mod Success
mod Tests
use Prim.Native.String.{String}
use cell.Base.{ℕ, zero, suc, ◌+◌, ◌-◌, ltb, leb, ◌==◌, if◌then◌else◌, Bool, true, false}
use cell.Base.{Option, none, some, List, [], ◌∷◌, sub64, add64, get_elem?}
use cell.Limine.Tool.{patch}

-- "++CONFIG_B2SUM_SIGNATURE++"
abbrev pub config_b2sum_sign : List ℕ
config_b2sum_sign =
    43 ∷ 43 ∷ 67 ∷ 79 ∷ 78 ∷ 70 ∷ 73 ∷ 71 ∷ 95 ∷ 66 ∷ 50 ∷ 83 ∷ 85 ∷ 77 ∷ 95 ∷ 83 ∷ 73 ∷ 71 ∷ 78
    ∷ 65 ∷ 84 ∷ 85 ∷ 82 ∷ 69 ∷ 43 ∷ 43 ∷ []

abbrev pub sign_length : ℕ
sign_length = 26

-- `config_b2sum_sign[checked_count]`; behind the text stands its zero byte.
abbrev pub sign_byte : Option ℕ → ℕ
sign_byte (some c) = c
sign_byte none = 0

abbrev pub sign_at : ℕ → ℕ
sign_at checked_count = sign_byte (get_elem? config_b2sum_sign checked_count)

-- The search loop at byte `i`, with `left` rounds to go: where the checksum is to stand.
unfoldable pub search_loop : ℕ → ℕ → ℕ → (ℕ → ℕ) → Option ℕ
search_loop zero i checked_count bootloader = none
search_loop (suc left) i checked_count bootloader =
    let restart = search_loop left (i + 1) 0 bootloader in
    let next = search_loop left (i + 1) (checked_count + 1) bootloader in
    if bootloader i == sign_at checked_count
    then (if checked_count + 1 == sign_length then some (i + 1) else next)
    else restart

-- The number of rounds, `bootloader_size - (26 + 128) + 1` as a `size_t`.
unfoldable pub rounds : ℕ → ℕ
rounds bootloader_size = add64 (sub64 bootloader_size (sign_length + 128)) 1

unfoldable pub find_checksum : ℕ → (ℕ → ℕ) → Option ℕ
unfolding search_loop rounds
find_checksum bootloader_size bootloader = search_loop (rounds bootloader_size) 0 0 bootloader

abbrev pub enrolled_at : (ℕ → ℕ) → (ℕ → ℕ) → Option ℕ → Option (ℕ → ℕ)
enrolled_at bootloader checksum none = none
enrolled_at bootloader checksum (some loc) = some (patch bootloader loc 128 checksum)

-- The bytes that are written back: with `none` for `argv[2]` the checksum is reset to 128 zeros.
abbrev pub checksum_or_zeros : Option (ℕ → ℕ) → ℕ → ℕ
checksum_or_zeros none j = 48
checksum_or_zeros (some b2sum) j = b2sum j

unfoldable pub enroll_config : ℕ → (ℕ → ℕ) → Option (ℕ → ℕ) → Option (ℕ → ℕ)
unfolding find_checksum
enroll_config bootloader_size bootloader b2sum =
    enrolled_at bootloader (checksum_or_zeros b2sum) (find_checksum bootloader_size bootloader)
