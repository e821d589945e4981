-- ===== src/Limine/Install/Gpt.antt =====
-- The probe and the conversion do nothing to the device but transfers.
use cell.Base.{ℕ, zero, suc, ◌+◌, ◌^◌, ◌<◌, ◌≡◌, arith, ◌&&◌, ◌==◌, Bool, true, false}
use cell.Base.{Option, none, some, List, [], ◌∷◌, ◌++◌, length}
use cell.Base.{◌-◌, ltb}
use cell.Limine.Tool.{M}
use cell.Limine.Endian.{w64, field}
use cell.Limine.Gpt.{Host, Options, header_size, entry_size, has_text, is_unused}
use cell.Limine.Gpt.Probe.{Gpt, probe, lb_guesses, check_secondary, efi_part}
use cell.Limine.Gpt.Convert.{
  PartToConv, convert_entry, entry_at, add_part, gather, write_entry, write_entries, write_mbr,
  write_if, convert, cd001,
}
use cell.Limine.Install.Steps.{
  IsSteps, Any, IsSteps-pure, IsSteps-fail, IsSteps-undefined, IsSteps-bind, IsSteps-if,
  IsSteps-guard, IsSteps-read, IsSteps-write, IsSteps-for_loop,
}

-- What the code relies on of its surroundings: `malloc` gives no object of 2 ^ 63 bytes, and the
-- image of the boot loader is between 1 KiB and 64 KiB long.
pub record IsHost (host : Host) : Type 0 where
  pub allocated : (n : ℕ) → host.available n ≡ true → n < 2 ^ 63
  pub long : 1023 < host.image_size
  pub short : host.image_size < 2 ^ 16

abbrev pub IsSmall : Gpt → Type 0
IsSmall g = g.lb_size < 2 ^ 63

probe-step :
    (options : Options) (guess : ℕ) (rest : List ℕ)
    → guess < 2 ^ 63
    → IsSteps IsSmall (probe options rest)
    → IsSteps IsSmall (probe options (guess ∷ rest))
unfolding probe
probe-step options guess rest word later =
    IsSteps-bind (IsSteps-read guess header_size (omega arith, omega arith)) (λ header _.
      IsSteps-if (has_text efi_part header 0)
        (λ _. IsSteps-if options.force_mbr (λ _. IsSteps-fail) (λ _. IsSteps-pure _ word))
        (λ _. later))

pub probe-IsSteps : (options : Options) → IsSteps IsSmall (probe options lb_guesses)
unfolding probe
probe-IsSteps options =
    probe-step options 512 (4096 ∷ []) (omega arith)
      (probe-step options 4096 [] (omega arith) (IsSteps-pure _ (omega arith)))

pub check_secondary-IsSteps :
    (host : Host) (g : Gpt) → IsSmall g → IsSteps IsSmall (check_secondary host g)
unfolding check_secondary
check_secondary-IsSteps host g small =
    IsSteps-if g.gpt
      (λ _. IsSteps-bind (IsSteps-read _ header_size (omega arith, omega arith)) (λ secondary _.
        IsSteps-if (has_text efi_part secondary 0) (λ _. IsSteps-pure _ small) (λ _. IsSteps-fail)))
      (λ _. IsSteps-pure _ small)

add_part-IsSteps :
    (parts : List PartToConv) (part : Option PartToConv)
    (rest : List PartToConv → M (Option (List PartToConv)))
    → ((parts : List PartToConv) → IsSteps Any (rest parts))
    → IsSteps Any (add_part parts part rest)
add_part-IsSteps parts none rest later = IsSteps-pure none tt
add_part-IsSteps parts (some part) rest later = later (parts ++ (part ∷ []))

gather-IsSteps :
    (big : Bool) (g : Gpt) (left i : ℕ) (parts : List PartToConv)
    → IsSteps Any (gather big g left i parts)
unfolding gather
gather-IsSteps big g zero i parts = IsSteps-pure (some parts) tt
gather-IsSteps big g (suc left) i parts =
    IsSteps-bind (IsSteps-read (entry_at big g i) entry_size (omega arith, omega arith)) (λ e _.
      IsSteps-if (is_unused big e) (λ _. gather-IsSteps big g left (i + 1) parts)
        (λ _.
          IsSteps-if (ltb (2 ^ 32 - 1) (field big w64 e 32)) (λ _. IsSteps-pure none tt)
            (λ _.
              IsSteps-if (length parts == 4) (λ _. IsSteps-undefined)
                (λ _.
                  add_part-IsSteps parts (convert_entry big e) (gather big g left (i + 1))
                    (gather-IsSteps big g left (i + 1))))))

write_entry-IsSteps :
    (big : Bool) (part : PartToConv) (i : ℕ) → IsSteps Any (write_entry big part i)
unfolding write_entry
write_entry-IsSteps big part i =
    IsSteps-bind (IsSteps-write _ _ 1 (omega arith, omega arith)) (λ _ _.
      IsSteps-bind (IsSteps-write _ _ 4 (omega arith, omega arith)) (λ _ _.
        IsSteps-bind (IsSteps-write _ _ 4 (omega arith, omega arith)) (λ _ _.
          IsSteps-bind (IsSteps-write _ _ 3 (omega arith, omega arith))
            (λ _ _. IsSteps-write _ _ 3 (omega arith, omega arith)))))

write_entries-IsSteps :
    (big : Bool) (parts : List PartToConv) (i : ℕ) → IsSteps Any (write_entries big parts i)
unfolding write_entries
write_entries-IsSteps big [] i = IsSteps-pure tt tt
write_entries-IsSteps big (part ∷ parts) i =
    IsSteps-bind (write_entry-IsSteps big part i) (λ _ _. write_entries-IsSteps big parts (i + 1))

write_mbr-IsSteps :
    (host : Host) (g : Gpt) (parts : List PartToConv)
    → IsHost host
    → IsSteps Any (write_mbr host g parts)
unfolding write_mbr
write_mbr-IsSteps host g parts h = IsSteps-guard (host.available g.lb_size) (λ given.
    let size = h.allocated g.lb_size given in
    IsSteps-bind (IsSteps-for_loop 34 0 _ (λ i. IsSteps-write _ _ _ (omega arith, size))) (λ _ _.
      IsSteps-bind (IsSteps-for_loop 33 0 _ (λ i. IsSteps-write _ _ _ (omega arith, size))) (λ _ _.
        IsSteps-bind (IsSteps-for_loop 4 0 _ (λ i. IsSteps-write _ _ 1 (omega arith, omega arith)))
          (λ _ _. write_entries-IsSteps host.bigendian parts 0))))

write_if-IsSteps :
    (host : Host) (g : Gpt) (parts : Option (List PartToConv))
    → IsHost host
    → IsSteps Any (write_if host g parts)
write_if-IsSteps host g none h = IsSteps-pure true tt
write_if-IsSteps host g (some parts) h =
    IsSteps-bind (write_mbr-IsSteps host g parts h) (λ _ _. IsSteps-pure false tt)

pub convert-IsSteps :
    (host : Host) (options : Options) (g : Gpt) → IsHost host → IsSteps Any (convert host options g)
unfolding convert
convert-IsSteps host options g h =
    IsSteps-if (g.gpt && options.gpt2mbr_allowed)
      (λ _. IsSteps-bind (IsSteps-read 32769 5 (omega arith, omega arith)) (λ iso_signature _.
        IsSteps-if (has_text cd001 iso_signature 0)
          (λ _.
            IsSteps-bind (gather-IsSteps _ g _ 0 []) (λ parts _. write_if-IsSteps host g parts h))
          (λ _. IsSteps-pure true tt)))
      (λ _. IsSteps-pure g.gpt tt)
