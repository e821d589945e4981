-- ===== src/Limine/Uninstall/Encode.antt =====
-- The bytes of the uninstall data file of limine.c, and what the C library calls make of them where
-- none fails.
use cell.Base.{
  ℕ, zero, suc, ◌+◌, ◌*◌, ◌%◌, ◌^◌, ◌<◌, ◌≡◌, ◌≢◌, refl, ap, ◌∙◌, arith, ◌==◌, ltb, Bool, true,
  false, none, some, List, [], ◌++◌, length, drop, get_or, length-append,
}
use cell.Limine.Tool.{Tool}
use cell.Limine.Endian.{w64, load, load_le, load_be, store}
use cell.Limine.Uninstall.Store.{bytes_to_list, fwrite_bytes, fread_bytes}

pub get_or-bytes_to_list :
    (n : ℕ) (bytes : ℕ → ℕ) (rest : List ℕ) (j : ℕ)
    → j < n
    → get_or (bytes_to_list n bytes ++ rest) j 0 ≡ bytes j
unfolding bytes_to_list
get_or-bytes_to_list zero bytes rest j h = elim h [ ]
get_or-bytes_to_list (suc n) bytes rest zero h = refl
get_or-bytes_to_list (suc n) bytes rest (suc j) h =
    get_or-bytes_to_list n (λ k. bytes (k + 1)) rest j (omega arith)
    ∙ ap bytes {y = suc j} (omega arith)

pub drop-bytes_to_list :
    (n : ℕ) (bytes : ℕ → ℕ) (rest : List ℕ) → drop n (bytes_to_list n bytes ++ rest) ≡ rest
unfolding bytes_to_list
drop-bytes_to_list zero bytes rest = refl
drop-bytes_to_list (suc n) bytes rest = drop-bytes_to_list n (λ k. bytes (k + 1)) rest

length-bytes_to_list : (n : ℕ) (bytes : ℕ → ℕ) → length (bytes_to_list n bytes) ≡ n
unfolding bytes_to_list
length-bytes_to_list zero bytes = refl
length-bytes_to_list (suc n) bytes = ap suc (length-bytes_to_list n (λ k. bytes (k + 1)))

pub fwrite_bytes-none :
    (n : ℕ) (bytes : ℕ → ℕ) (t : Tool) → t.faults ≡ [] → n ≡ 0 → fwrite_bytes n bytes t ≡ (none, t)
unfolding fwrite_bytes
fwrite_bytes-none n bytes t calm e = simp (calm, e)

pub fwrite_bytes-some :
    (n : ℕ) (bytes : ℕ → ℕ) (t : Tool)
    → t.faults ≡ []
    → n ≢ 0
    → fwrite_bytes n bytes t ≡ (some (bytes_to_list n bytes), t)
unfolding fwrite_bytes
fwrite_bytes-some n bytes t calm ne = simp (calm, test n ne)
  where
    test : (m : ℕ) → m ≢ 0 → (m == 0) ≡ false
    test m h = ground arith

-- What was written is read again.
pub fread_bytes-written :
    (n : ℕ) (bytes : ℕ → ℕ) (rest : List ℕ) (t : Tool)
    → t.faults ≡ []
    → n ≢ 0
    → fread_bytes n (bytes_to_list n bytes ++ rest) t
      ≡ (some ((λ j. get_or (bytes_to_list n bytes ++ rest) j 0), rest), t)
unfolding fread_bytes
fread_bytes-written n bytes rest t calm ne =
    simp (calm, test n ne, long, drop-bytes_to_list n bytes rest)
  where
    test : (m : ℕ) → m ≢ 0 → (m == 0) ≡ false
    test m h = ground arith

    long : ltb (length (bytes_to_list n bytes ++ rest)) n ≡ false
    long = ground (arith, length-append (bytes_to_list n bytes) rest, length-bytes_to_list n bytes)

load_le-cong : (n : ℕ) (f g : ℕ → ℕ) → ((j : ℕ) → j < n → f j ≡ g j) → load_le n f ≡ load_le n g
unfolding load_le
load_le-cong zero f g same = refl
load_le-cong (suc n) f g same = omega (
  arith,
  same 0 (omega arith),
  load_le-cong n (λ j. f (j + 1)) (λ j. g (j + 1)) (λ j h. same (j + 1) (omega arith)),
)

load_be-cong : (n : ℕ) (f g : ℕ → ℕ) → ((j : ℕ) → j < n → f j ≡ g j) → load_be n f ≡ load_be n g
unfolding load_be
load_be-cong zero f g same = refl
load_be-cong (suc n) f g same =
    ap (λ (b : ℕ). b % 256 * 256 ^ n + load_be n (λ j. f (j + 1))) (same 0 (omega arith))
    ∙ ap (λ (r : ℕ). g 0 % 256 * 256 ^ n + r)
        (load_be-cong n (λ j. f (j + 1)) (λ j. g (j + 1)) (λ j h. same (j + 1) (omega arith)))

load-store :
    (bigendian : Bool) (v : ℕ) → v < 2 ^ 64 → load bigendian w64 (store bigendian w64 v) ≡ v
unfolding load store
load-store false v h = omega arith
load-store true v h = omega arith

-- A `uint64_t` that was written is read as itself.
pub load-written :
    (bigendian : Bool) (v : ℕ) (rest : List ℕ)
    → v < 2 ^ 64
    → load bigendian w64 (λ j. get_or (bytes_to_list 8 (store bigendian w64 v) ++ rest) j 0) ≡ v
unfolding load
load-written false v rest h =
    load_le-cong 8 _ (store false w64 v) (get_or-bytes_to_list 8 (store false w64 v) rest)
    ∙ load-store false v h
load-written true v rest h =
    load_be-cong 8 _ (store true w64 v) (get_or-bytes_to_list 8 (store true w64 v) rest)
    ∙ load-store true v h
