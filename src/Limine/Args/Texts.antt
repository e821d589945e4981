-- ===== src/Limine/Args/Texts.antt =====
-- The texts that limine.c compares its arguments with.
use cell.Base.{ℕ, zero, suc, ◌==◌, ◌&&◌, Bool, true, false, List, [], ◌∷◌}

-- A text as the list of its bytes, without the zero byte.
abbrev pub Text : Type 0
Text = List ℕ

-- `strcmp(a, b) == 0`
unfoldable pub same_text : Text → Text → Bool
same_text [] [] = true
same_text [] (b ∷ ys) = false
same_text (a ∷ xs) [] = false
same_text (a ∷ xs) (b ∷ ys) = (a == b) && same_text xs ys

-- `memcmp(a, b, n) == 0`, of an argument that ends before that taken as different.
unfoldable pub same_start : ℕ → Text → Text → Bool
same_start zero xs ys = true
same_start (suc n) [] ys = false
same_start (suc n) (a ∷ xs) [] = false
same_start (suc n) (a ∷ xs) (b ∷ ys) = (a == b) && same_start n xs ys

-- "--help"
abbrev pub help_long : Text
help_long = 45 ∷ 45 ∷ 104 ∷ 101 ∷ 108 ∷ 112 ∷ []

-- "-h"
abbrev pub help_short : Text
help_short = 45 ∷ 104 ∷ []

-- "--quiet"
abbrev pub quiet_option : Text
quiet_option = 45 ∷ 45 ∷ 113 ∷ 117 ∷ 105 ∷ 101 ∷ 116 ∷ []

-- "--reset"
abbrev pub reset_option : Text
reset_option = 45 ∷ 45 ∷ 114 ∷ 101 ∷ 115 ∷ 101 ∷ 116 ∷ []

-- "--force-mbr"
abbrev pub force_mbr_option : Text
force_mbr_option = 45 ∷ 45 ∷ 102 ∷ 111 ∷ 114 ∷ 99 ∷ 101 ∷ 45 ∷ 109 ∷ 98 ∷ 114 ∷ []

-- "--no-gpt-to-mbr-isohybrid-conversion"
abbrev pub no_conversion_option : Text
no_conversion_option =
    45 ∷ 45 ∷ 110 ∷ 111 ∷ 45 ∷ 103 ∷ 112 ∷ 116 ∷ 45 ∷ 116 ∷ 111 ∷ 45 ∷ 109 ∷ 98 ∷ 114 ∷ 45 ∷ 105
    ∷ 115 ∷ 111 ∷ 104 ∷ 121 ∷ 98 ∷ 114 ∷ 105 ∷ 100 ∷ 45 ∷ 99 ∷ 111 ∷ 110 ∷ 118 ∷ 101 ∷ 114 ∷ 115
    ∷ 105 ∷ 111 ∷ 110 ∷ []

-- "--uninstall"
abbrev pub uninstall_option : Text
uninstall_option = 45 ∷ 45 ∷ 117 ∷ 110 ∷ 105 ∷ 110 ∷ 115 ∷ 116 ∷ 97 ∷ 108 ∷ 108 ∷ []

-- "--uninstall-data-file="
abbrev pub data_file_option : Text
data_file_option =
    45 ∷ 45 ∷ 117 ∷ 110 ∷ 105 ∷ 110 ∷ 115 ∷ 116 ∷ 97 ∷ 108 ∷ 108 ∷ 45 ∷ 100 ∷ 97 ∷ 116 ∷ 97 ∷ 45
    ∷ 102 ∷ 105 ∷ 108 ∷ 101 ∷ 61 ∷ []

-- "--version-only"
abbrev pub version_only_option : Text
version_only_option =
    45 ∷ 45 ∷ 118 ∷ 101 ∷ 114 ∷ 115 ∷ 105 ∷ 111 ∷ 110 ∷ 45 ∷ 111 ∷ 110 ∷ 108 ∷ 121 ∷ []

-- "help"
abbrev pub help_command : Text
help_command = 104 ∷ 101 ∷ 108 ∷ 112 ∷ []

-- "bios-install"
abbrev pub install_command : Text
install_command = 98 ∷ 105 ∷ 111 ∷ 115 ∷ 45 ∷ 105 ∷ 110 ∷ 115 ∷ 116 ∷ 97 ∷ 108 ∷ 108 ∷ []

-- "enroll-config"
abbrev pub enroll_command : Text
enroll_command = 101 ∷ 110 ∷ 114 ∷ 111 ∷ 108 ∷ 108 ∷ 45 ∷ 99 ∷ 111 ∷ 110 ∷ 102 ∷ 105 ∷ 103 ∷ []

-- "--print-datadir"
abbrev pub datadir_option : Text
datadir_option =
    45 ∷ 45 ∷ 112 ∷ 114 ∷ 105 ∷ 110 ∷ 116 ∷ 45 ∷ 100 ∷ 97 ∷ 116 ∷ 97 ∷ 100 ∷ 105 ∷ 114 ∷ []

-- "version"
abbrev pub version_command : Text
version_command = 118 ∷ 101 ∷ 114 ∷ 115 ∷ 105 ∷ 111 ∷ 110 ∷ []

-- "--version"
abbrev pub version_option : Text
version_option = 45 ∷ 45 ∷ 118 ∷ 101 ∷ 114 ∷ 115 ∷ 105 ∷ 111 ∷ 110 ∷ []
