-- ===== src/Limine/Args/Scan.antt =====
-- What the option loop of `bios_install` makes of `--uninstall-data-file=`.
use cell.Base.{◌==◌, arith, suc, ◌≡◌, refl, ◌++◌, Bool, false, some, ◌∷◌, length}
use cell.Limine.Args.Texts.{Text, same_text, same_start, data_file_option}
use cell.Limine.Args.{InstallArgs, scanned, install_option}

-- The file name that the option gives begins with the `=` of the option, also where no name
-- follows it, so that the name is never found to be empty.
pub install_option-data_file :
    (opens : Text → Bool) (name : Text) (args : InstallArgs)
    → install_option opens (data_file_option ++ name) args
      ≡ scanned (record args { uninstall_file = some (61 ∷ name) })
unfolding install_option same_text same_start
install_option-data_file opens name args =
    let longer : (suc (length name) == 0) ≡ false = ground arith in rw longer refl
