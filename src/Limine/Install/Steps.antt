-- ===== src/Limine/Install/Steps.antt =====
-- That the functions of `bios_install` do nothing to the device but transfers, in the order of
-- `Uninstall.Work`, and what they promise of their results.
use cell.Base.{ℕ, zero, suc, ◌+◌, ◌≡◌, refl, if◌then◌else◌, Bool, true, false, Option, none, some}
use cell.Limine.Tool.{Tool, M, pure, fail, undefined_behaviour, and_then, ◌>>=◌, ◌>>◌}
use cell.Limine.Device.{device_read, device_write, device_flush_cache}
use cell.Limine.Device.Read.{IsTransfer}
use cell.Limine.Uninstall.Work.{
  Work, has_read, has_written, has_flushed, flush_failed, read_failed, write_failed, stopped,
}
use cell.Limine.Gpt.{for_loop}

pub data Leads {A : Type 0} (P : A → Type 0) (start : Tool) : Option A × Tool → Type 0 where
  goes_on : {a : A} {t : Tool} → P a → Work start t true → Leads P start (some a, t)
  stops : {t : Tool} → Work start t false → Leads P start (none, t)
  breaks : {t : Tool} → t.undefined ≡ true → Leads P start (none, t)

-- A function makes only such transfers, and its result has the property.
abbrev pub IsSteps : {A : Type 0} → (A → Type 0) → M A → Type 0
IsSteps P m = (start t : Tool) → Work start t true → Leads P start (m t)

abbrev pub Any : {A : Type 0} → A → Type 0
Any _ = Unit {0}

pub IsSteps-pure : {A : Type 0} {P : A → Type 0} (a : A) → P a → IsSteps P (pure a)
IsSteps-pure a p start t work = goes_on p work

pub IsSteps-fail : {A : Type 0} {P : A → Type 0} → IsSteps P (fail {A = A})
IsSteps-fail start t work = stops (stopped work)

pub IsSteps-undefined : {A : Type 0} {P : A → Type 0} → IsSteps P (undefined_behaviour {A = A})
IsSteps-undefined start t work = breaks refl

after :
    {A B : Type 0} {P : A → Type 0} {Q : B → Type 0} {f : A → M B} {start : Tool}
    {r : Option A × Tool}
    → Leads P start r
    → ((a : A) → P a → IsSteps Q (f a))
    → Leads Q start (and_then r f)
after {start} (goes_on {a} {t} p work) next = next a p start t work
after (stops work) next = stops work
after (breaks e) next = breaks e

pub IsSteps-bind :
    {A B : Type 0} {P : A → Type 0} {Q : B → Type 0} {m : M A} {f : A → M B}
    → IsSteps P m
    → ((a : A) → P a → IsSteps Q (f a))
    → IsSteps Q (m >>= f)
IsSteps-bind first next start t work = after (first start t work) next

pub IsSteps-if :
    {A : Type 0} {P : A → Type 0} (b : Bool) {x y : M A}
    → (b ≡ true → IsSteps P x)
    → (b ≡ false → IsSteps P y)
    → IsSteps P (if b then x else y)
IsSteps-if true taken other = taken refl
IsSteps-if false taken other = other refl

-- A test that ends the function where it fails.
pub IsSteps-guard :
    {B : Type 0} {Q : B → Type 0} (b : Bool) {k : M B}
    → (b ≡ true → IsSteps Q k)
    → IsSteps Q ((if b then pure tt else fail) >> k)
IsSteps-guard true next = next refl
IsSteps-guard false next = λ start t work. stops (stopped work)

pub IsSteps-read : (loc count : ℕ) → IsTransfer loc count → IsSteps Any (device_read loc count)
IsSteps-read loc count size start t work = go (device_read loc count t) refl
  where
    go : (r : Option (ℕ → ℕ) × Tool) → device_read loc count t ≡ r → Leads Any start r
    go (some buffer, u) e = goes_on tt (has_read loc count size e work)
    go (none, u) e = stops (read_failed loc count size e work)

pub IsSteps-write :
    (buffer : ℕ → ℕ) (loc count : ℕ)
    → IsTransfer loc count
    → IsSteps Any (device_write buffer loc count)
IsSteps-write buffer loc count size start t work = go (device_write buffer loc count t) refl
  where
    go : (r : Option (Unit {0}) × Tool) → device_write buffer loc count t ≡ r → Leads Any start r
    go (some tt, u) e = goes_on tt (has_written buffer loc count size e work)
    go (none, u) e = stops (write_failed buffer loc count size e work)

pub IsSteps-flush : IsSteps Any device_flush_cache
IsSteps-flush start t work = go (device_flush_cache t) refl
  where
    go : (r : Option (Unit {0}) × Tool) → device_flush_cache t ≡ r → Leads Any start r
    go (some tt, u) e = goes_on tt (has_flushed e work)
    go (none, u) e = stops (flush_failed e work)

pub IsSteps-for_loop :
    (left i : ℕ) (body : ℕ → M (Unit {0}))
    → ((i : ℕ) → IsSteps Any (body i))
    → IsSteps Any (for_loop left i body)
unfolding for_loop
IsSteps-for_loop zero i body each = IsSteps-pure tt tt
IsSteps-for_loop (suc left) i body each =
    IsSteps-bind (each i) (λ _ _. IsSteps-for_loop left (i + 1) body each)
