-- ===== src/Limine/Gpt/Probe.antt =====
-- The probe of `bios_install` for a GPT and the logical block size.
use cell.Base.{ℕ, if◌then◌else◌, Bool, true, false, List, [], ◌∷◌, mul64}
use cell.Limine.Tool.{M, pure, fail, ◌>>=◌}
use cell.Limine.Device.{blank, device_read}
use cell.Limine.Gpt.{Host, Options, header_size, alternate_lba, has_text}

-- "EFI PART"
abbrev pub efi_part : List ℕ
efi_part = 69 ∷ 70 ∷ 73 ∷ 32 ∷ 80 ∷ 65 ∷ 82 ∷ 84 ∷ []

-- `gpt`, `gpt_header`, `secondary_gpt_header` and `lb_size`.
pub record Gpt : Type 0 where
  pub gpt : Bool
  pub header : ℕ → ℕ
  pub secondary : ℕ → ℕ
  pub lb_size : ℕ

abbrev pub no_gpt : Gpt
no_gpt = record { gpt = false; header = blank; secondary = blank; lb_size = 0 }

abbrev pub lb_guesses : List ℕ
lb_guesses = 512 ∷ 4096 ∷ []

-- The loop over the guesses of the logical block size. With no GPT the header that was read last
-- is not looked at again.
unfoldable pub probe : Options → List ℕ → M Gpt
probe options [] = pure no_gpt
probe options (guess ∷ rest) =
    let later = probe options rest in
    device_read guess header_size >>= λ header.
    if has_text efi_part header 0
    then (if options.force_mbr
        then fail
        else pure (record { gpt = true; header = header; secondary = blank; lb_size = guess }))
    else later

unfoldable pub check_secondary : Host → Gpt → M Gpt
check_secondary host g =
    if g.gpt
    then (do
      secondary ← device_read (mul64 g.lb_size (alternate_lba host.bigendian g.header)) header_size
      if has_text efi_part secondary 0 then pure (record g { secondary = secondary }) else fail)
    else pure g
