-- ===== src/Limine/Install/Checks.antt =====
-- The MBR checks do nothing to the device but transfers.
use cell.Base.{ℕ, ◌+◌, ◌<◌, arith, ◌&&◌, not, ◌==◌, ltb, Bool, true, false, List}
use cell.Limine.Endian.{w16, w32, field}
use cell.Limine.Gpt.{has_text}
use cell.Limine.Install.Mbr.{
  Checks, check_flag, check_start, check_slot, check_text, check_magic, check_slots,
  check_file_systems, set_active, check_mbr, ech_fs, ntfs, fat, fat32,
}
use cell.Limine.Install.Steps.{
  IsSteps, Any, IsSteps-pure, IsSteps-fail, IsSteps-bind, IsSteps-if, IsSteps-read, IsSteps-write,
}

check_flag-IsSteps :
    (force_mbr : Bool) (at hint8 : ℕ) (mbr : Bool)
    → at < 512
    → IsSteps Any (check_flag force_mbr at hint8 mbr)
unfolding check_flag
check_flag-IsSteps force_mbr at hint8 mbr near =
    IsSteps-if (not (hint8 == 0x00) && not (hint8 == 0x80))
      (λ _.
        IsSteps-if force_mbr
          (λ _.
            IsSteps-bind (IsSteps-write _ at 1 (omega arith, omega arith))
              (λ _ _. IsSteps-pure _ tt))
          (λ _. IsSteps-pure _ tt))
      (λ _. IsSteps-pure _ tt)

check_start-IsSteps : (big : Bool) (at : ℕ) → at < 512 → IsSteps Any (check_start big at)
unfolding check_start
check_start-IsSteps big at near =
    IsSteps-bind (IsSteps-read (at + 4) 1 (omega arith, omega arith)) (λ hint8 _.
      IsSteps-if (not (hint8 0 == 0x00))
        (λ _. IsSteps-bind (IsSteps-read (at + 8) 4 (omega arith, omega arith)) (λ hint32 _.
          IsSteps-if (ltb (field big w32 hint32 0) 63) (λ _. IsSteps-fail)
            (λ _. IsSteps-pure tt tt)))
        (λ _. IsSteps-pure tt tt))

check_slot-IsSteps :
    (big force_mbr : Bool) (at : ℕ) (checks : Checks)
    → at < 512
    → IsSteps Any (check_slot big force_mbr at checks)
unfolding check_slot
check_slot-IsSteps big force_mbr at checks near =
    IsSteps-bind (IsSteps-read at 1 (omega arith, omega arith)) (λ hint8 _.
      IsSteps-bind (check_flag-IsSteps force_mbr at (hint8 0) checks.mbr near)
        (λ flag _. IsSteps-bind (check_start-IsSteps big at near) (λ _ _. IsSteps-pure _ tt)))

check_text-IsSteps :
    (force_mbr : Bool) (text : List ℕ) (at size wiped : ℕ) (checks : Checks)
    → at < 512
    → size < 64
    → wiped < 64
    → IsSteps Any (check_text force_mbr text at size wiped checks)
unfolding check_text
check_text-IsSteps force_mbr text at size wiped checks near a b =
    IsSteps-bind (IsSteps-read at size (omega arith, omega arith)) (λ hintc _.
      IsSteps-if (has_text text hintc 0)
        (λ _.
          IsSteps-if force_mbr
            (λ _.
              IsSteps-bind (IsSteps-write _ at wiped (omega arith, omega arith))
                (λ _ _. IsSteps-pure _ tt))
            (λ _. IsSteps-pure _ tt))
        (λ _. IsSteps-pure _ tt))

check_magic-IsSteps :
    (big force_mbr : Bool) (checks : Checks) → IsSteps Any (check_magic big force_mbr checks)
unfolding check_magic
check_magic-IsSteps big force_mbr checks =
    IsSteps-bind (IsSteps-read 1080 2 (omega arith, omega arith)) (λ hint16 _.
      IsSteps-if (field big w16 hint16 0 == 0xef53)
        (λ _.
          IsSteps-if force_mbr
            (λ _.
              IsSteps-bind (IsSteps-write _ 1080 2 (omega arith, omega arith))
                (λ _ _. IsSteps-pure _ tt))
            (λ _. IsSteps-pure _ tt))
        (λ _. IsSteps-pure _ tt))

check_slots-IsSteps : (big force_mbr : Bool) → IsSteps Any (check_slots big force_mbr)
unfolding check_slots
check_slots-IsSteps big force_mbr =
    IsSteps-bind
      (IsSteps-bind
        (IsSteps-bind
          (check_slot-IsSteps big force_mbr 446 (record { mbr = true; any_active = false })
            (omega arith))
          (λ c _. check_slot-IsSteps big force_mbr 462 c (omega arith)))
        (λ c _. check_slot-IsSteps big force_mbr 478 c (omega arith)))
      (λ c _. check_slot-IsSteps big force_mbr 494 c (omega arith))

check_file_systems-IsSteps :
    (big force_mbr : Bool) (checks : Checks) → IsSteps Any (check_file_systems big force_mbr checks)
unfolding check_file_systems
check_file_systems-IsSteps big force_mbr checks =
    IsSteps-bind
      (IsSteps-bind
        (IsSteps-bind
          (IsSteps-bind
            (IsSteps-bind (text ech_fs 4 8 8 checks (omega arith) (omega arith) (omega arith))
              (λ c _. text ntfs 3 4 4 c (omega arith) (omega arith) (omega arith)))
            (λ c _. text fat 54 3 5 c (omega arith) (omega arith) (omega arith)))
          (λ c _. text fat 82 3 5 c (omega arith) (omega arith) (omega arith)))
        (λ c _. text fat32 3 5 5 c (omega arith) (omega arith) (omega arith)))
      (λ c _. check_magic-IsSteps big force_mbr c)
  where
    text :
        (text : List ℕ) (at size wiped : ℕ) (checks : Checks)
        → at < 512
        → size < 64
        → wiped < 64
        → IsSteps Any (check_text force_mbr text at size wiped checks)
    text = check_text-IsSteps force_mbr

set_active-IsSteps : (checks : Checks) → IsSteps Any (set_active checks)
unfolding set_active
set_active-IsSteps checks =
    IsSteps-if (checks.mbr && not checks.any_active)
      (λ _.
        IsSteps-bind (IsSteps-write _ 446 1 (omega arith, omega arith)) (λ _ _. IsSteps-pure _ tt))
      (λ _. IsSteps-pure _ tt)

pub check_mbr-IsSteps : (big force_mbr : Bool) → IsSteps Any (check_mbr big force_mbr)
unfolding check_mbr
check_mbr-IsSteps big force_mbr =
    IsSteps-bind
      (IsSteps-bind (check_slots-IsSteps big force_mbr)
        (λ c _. check_file_systems-IsSteps big force_mbr c))
      (λ c _. set_active-IsSteps c)
