-- ===== src/Limine/Args.antt =====
-- The command line of limine.c: `remove_arg`, the option loops of `bios_install` and
-- `enroll_config`, `version` and `main`. What is printed is output and left out.
pub mod Texts
pub mod Scan
use cell.Base.{
  ℕ, zero, suc, ◌+◌, ◌-◌, ltb, leb, ◌==◌, ◌&&◌, ◌||◌, not, if◌then◌else◌, Bool, true, false,
}
use cell.Base.{Option, none, some, List, [], ◌∷◌, get_elem?, length, set, take, drop}
use cell.Limine.Args.Texts.{
  Text, same_text, same_start, help_long, help_short, quiet_option, reset_option,
}
use cell.Limine.Args.Texts.{
  force_mbr_option, no_conversion_option, uninstall_option, data_file_option,
}
use cell.Limine.Args.Texts.{
  version_only_option, help_command, install_command, enroll_command, datadir_option,
  version_command, version_option,
}

abbrev or_same : List Text → ℕ → Option Text → List Text
or_same argv i none = argv
or_same argv i (some arg) = set argv i arg

-- The loop of `remove_arg` at index `i`, with `left` rounds to go.
unfoldable pub shift_args : ℕ → ℕ → List Text → List Text
shift_args zero i argv = argv
shift_args (suc left) i argv = shift_args left (i + 1) (or_same argv i (get_elem? argv (i + 1)))

-- `remove_arg`; `argc` is the length of the list.
unfoldable pub remove_arg : List Text → ℕ → List Text
unfolding shift_args
remove_arg argv index = take (length argv - 1) (shift_args (length argv - 1 - index) index argv)

-- How an option loop ends: `EXIT_SUCCESS` after the help text, `EXIT_FAILURE`, or with the options.
pub data Scanned (A : Type 0) : Type 0 where
  helped failed_scan : Scanned A
  scanned : A → Scanned A

pub record EnrollArgs : Type 0 where
  pub argv : List Text
  pub quiet : Bool
  pub reset : Bool

-- `argv[i]`
abbrev pub arg_at : List Text → ℕ → Text
arg_at argv i = elim (get_elem? argv i) [ some arg ↦ arg | none ↦ [] ]

-- The option loop of `enroll_config` from index `i` on. Each round raises `i`, so there are fewer
-- rounds than arguments.
unfoldable pub enroll_options : ℕ → ℕ → EnrollArgs → Scanned EnrollArgs
enroll_options zero i args = scanned args
enroll_options (suc fuel) i args =
    let rest = enroll_options fuel (i + 1) in
    let arg = arg_at args.argv i in
    if leb (length args.argv) i
    then scanned args
    else if same_text arg help_long || same_text arg help_short
    then helped
    else if same_text arg quiet_option
    then rest (record { argv = remove_arg args.argv i; quiet = true; reset = args.reset })
    else if same_text arg reset_option
    then rest (record { argv = remove_arg args.argv i; quiet = args.quiet; reset = true })
    else rest args

abbrev checked_enroll : Scanned EnrollArgs → Scanned EnrollArgs
checked_enroll helped = helped
checked_enroll failed_scan = failed_scan
checked_enroll (scanned args) =
    if leb (length args.argv) (if args.reset then 1 else 2)
    then failed_scan
    else if not args.reset && not (length (arg_at args.argv 2) == 128)
    then failed_scan
    else scanned args

-- The options of `enroll_config`, with the tests on their number and on the checksum's length.
unfoldable pub enroll_args : List Text → Scanned EnrollArgs
unfolding enroll_options
enroll_args argv =
    checked_enroll
      (enroll_options (length argv) 1 (record { argv = argv; quiet = false; reset = false }))

-- `device`, `part_ndx`, `force_mbr`, `gpt2mbr_allowed`, `uninstall_mode`, `uninstall_file`, `quiet`.
pub record InstallArgs : Type 0 where
  pub device_name : Option Text
  pub part_ndx : Option Text
  pub force_mbr : Bool
  pub gpt2mbr_allowed : Bool
  pub uninstall_mode : Bool
  pub uninstall_file : Option Text
  pub quiet : Bool

abbrev no_args : InstallArgs
no_args = record {
  device_name = none;
  part_ndx = none;
  force_mbr = false;
  gpt2mbr_allowed = true;
  uninstall_mode = false;
  uninstall_file = none;
  quiet = false;
}

-- `memcmp(argv[i], "--uninstall-data-file=", 21) == 0`, and `argv[i] + 21`.
abbrev pub data_file_length : ℕ
data_file_length = 21

-- An argument that is no option: the device, if `fopen` can open it, or else the partition index.
unfoldable pub positional : (Text → Bool) → Text → InstallArgs → Option Text → Scanned InstallArgs
positional opens arg args (some _) = scanned (record args { part_ndx = some arg })
positional opens arg args none =
    if opens arg then scanned (record args { device_name = some arg }) else failed_scan

-- One round of the option loop of `bios_install`.
unfoldable pub install_option : (Text → Bool) → Text → InstallArgs → Scanned InstallArgs
unfolding positional
install_option opens arg args =
    if same_text arg help_long || same_text arg help_short
    then helped
    else if same_text arg quiet_option
    then scanned (record args { quiet = true })
    else if same_text arg force_mbr_option
    then scanned (record args { force_mbr = true })
    else if same_text arg no_conversion_option
    then scanned (record args { gpt2mbr_allowed = false })
    else if same_text arg uninstall_option
    then scanned (record args { uninstall_mode = true })
    else if same_start data_file_length arg data_file_option
    then (if length (drop data_file_length arg) == 0
        then failed_scan
        else scanned (record args { uninstall_file = some (drop data_file_length arg) }))
    else positional opens arg args args.device_name

abbrev pub go_on : Scanned InstallArgs → (InstallArgs → Scanned InstallArgs) → Scanned InstallArgs
go_on helped next = helped
go_on failed_scan next = failed_scan
go_on (scanned args) next = next args

-- The loop over the arguments after the first.
unfoldable pub install_options : (Text → Bool) → List Text → InstallArgs → Scanned InstallArgs
unfolding install_option
install_options opens [] args = scanned args
install_options opens (arg ∷ rest) args =
    go_on (install_option opens arg args) (install_options opens rest)

abbrev need_device : InstallArgs → Option Text → Scanned InstallArgs
need_device args none = failed_scan
need_device args (some _) = scanned args

-- The options of `bios_install`, with a device.
unfoldable pub install_args : (Text → Bool) → List Text → Scanned InstallArgs
unfolding install_options
install_args opens argv =
    if ltb (length argv) 2
    then failed_scan
    else go_on (install_options opens (drop 1 argv) no_args)
        (λ args. need_device args args.device_name)

-- What `version` prints, by its exits: its usage, the number alone, or all of it.
pub data VersionText : Type 0 where
  version_usage version_number version_full : VersionText

unfoldable pub version : List Text → VersionText
version argv =
    if leb 2 (length argv) && same_text (arg_at argv 1) help_long
    then version_usage
    else if leb 2 (length argv) && same_text (arg_at argv 1) version_only_option
    then version_number
    else version_full

-- The command that `main` runs, on the arguments from the second on.
pub data Command : Type 0 where
  usage_failure usage_success print_datadir : Command
  run_install run_enroll run_version : List Text → Command

unfoldable pub main : List Text → Command
main argv =
    let command = arg_at argv 1 in
    if leb (length argv) 1
    then usage_failure
    else if same_text command help_command
        || same_text command help_long
        || same_text command help_short
    then usage_success
    else if same_text command install_command
    then run_install (drop 1 argv)
    else if same_text command enroll_command
    then run_enroll (drop 1 argv)
    else if same_text command datadir_option
    then print_datadir
    else if same_text command version_command || same_text command version_option
    then run_version (drop 1 argv)
    else usage_failure
