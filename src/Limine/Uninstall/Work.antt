-- ===== src/Limine/Uninstall/Work.antt =====
-- The transfers that `bios_install` makes before its cleanup, whatever they are: a step relation.
use cell.Base.{ℕ, ◌≡◌, Bool, true, false, some, none}
use cell.Limine.Tool.{Tool}
use cell.Limine.Device.{device_read, device_write, device_flush_cache}
use cell.Limine.Device.Read.{IsTransfer}

-- `Work start t running`: `t` is reached from `start`. While `running`, every transfer so far has
-- succeeded; the first that fails goes to the cleanup.
pub data Work (start : Tool) : Tool → Bool → Type 0 where
  begun : Work start start true
  has_read :
      {t u : Tool} {buffer : ℕ → ℕ} (loc count : ℕ)
      → IsTransfer loc count
      → device_read loc count t ≡ (some buffer, u)
      → Work start t true
      → Work start u true
  has_written :
      {t u : Tool} (buffer : ℕ → ℕ) (loc count : ℕ)
      → IsTransfer loc count
      → device_write buffer loc count t ≡ (some tt, u)
      → Work start t true
      → Work start u true
  has_flushed :
      {t u : Tool} → device_flush_cache t ≡ (some tt, u) → Work start t true → Work start u true
  flush_failed :
      {t u : Tool} → device_flush_cache t ≡ (none, u) → Work start t true → Work start u false
  read_failed :
      {t u : Tool} (loc count : ℕ)
      → IsTransfer loc count
      → device_read loc count t ≡ (none, u)
      → Work start t true
      → Work start u false
  write_failed :
      {t u : Tool} (buffer : ℕ → ℕ) (loc count : ℕ)
      → IsTransfer loc count
      → device_write buffer loc count t ≡ (none, u)
      → Work start t true
      → Work start u false
  stopped : {t : Tool} → Work start t true → Work start t false
