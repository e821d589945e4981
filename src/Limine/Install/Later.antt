-- ===== src/Limine/Install/Later.antt =====
-- `bios_install` of limine.c with `--uninstall`, in a later run of the program on the device that
-- an installation has left.
use cell.Base.{
  ℕ, ◌≤◌, ◌<◌, ◌^◌, ◌≡◌, sym, ap, ◌∙◌, arith, Bool, true, false, Option, some, List, [],
}
use native.Mathlib.Decide.{dec_le}
use cell.Limine.Tool.{Tool}
use cell.Limine.Device.{device_init}
use cell.Limine.Device.Init.{IsFresh, Initialised, device_init_lem}
use cell.Limine.Uninstall.{reverse_uninstall_data}
use cell.Limine.Uninstall.Kept.{IsKept}
use cell.Limine.Uninstall.Work.{begun}
use cell.Limine.Uninstall.Rollback.{RolledBack, Work-Holds}
use cell.Limine.Uninstall.Store.{store_uninstall_data, bios_uninstall}
use cell.Limine.Uninstall.Reloaded.{reloads, reloaded-bytes}
use cell.Limine.Gpt.{Host, Options}
use cell.Limine.Install.Write.{cleanup, after_init, bios_install}
use cell.Limine.Install.Gpt.{IsHost}
use cell.Limine.Install.Outcome.{install-IsSteps}
use cell.Limine.Install.Steps.{Leads, goes_on, stops, breaks, Any}

-- What is left of an installation that has succeeded.
record Installed (t after : Tool) : Type 0 where
  start : Tool
  worked : Tool
  fresh : IsFresh start
  same_size : start.device.size ≡ t.device.size
  same_content : start.device.content ≡ t.device.content
  kept : IsKept start worked
  reversed : after ≡ reverse_uninstall_data worked
  big : 512 ≤ t.device.size
  same_block : start.block_size ≡ 512

module _ (host : Host) (options : Options) (t after : Tool) (h : IsHost host) (calm : t.faults ≡ [])
    (small : t.device.size < 2 ^ 63) (none_yet : t.uninstall_data_i ≡ 0)
    (off : t.uninstalling ≡ false) where
  from_result :
      512 ≤ t.device.size
      → (i : Initialised t (device_init t)) → {result : Option (Unit {0}) × Tool}
      → Leads Any i.after result
      → cleanup result ≡ (true, after)
      → Installed t after
  from_result big i (stops work) e = absurd (cc e)
  from_result big i (breaks undefined) e = absurd (cc e)
  from_result big i (goes_on {t = worked} _ work) e = record {
    start = i.after;
    worked = worked;
    fresh = i.fresh;
    same_size = i.same_size;
    same_content = i.same_content;
    kept = (Work-Holds i.fresh work).kept;
    reversed = ap (λ (r : Bool × Tool). r.1) (sym e);
    big = big;
    same_block = i.block_bytes;
  }

  bios_install-Installed : bios_install host options t ≡ (true, after) → Installed t after
  unfolding bios_install
  bios_install-Installed e =
      let (enough, short) = device_init_lem {t = t} calm small none_yet off in
      elim (dec_le 512 t.device.size) [
        | yes big ↦
            let i = enough big in
            from_result big i (install-IsSteps host options h i.after i.after begun)
              (ap (after_init host options) (sym i.returns) ∙ e)
        | no few ↦
            let u = short (omega arith) in absurd (cc (e, ap (after_init host options) u.returns))
      ]

RolledBack-carried :
    {start t : Tool} {result : Bool × Tool}
    → start.device.size ≡ t.device.size
    → start.device.content ≡ t.device.content
    → RolledBack start result
    → RolledBack t result
RolledBack-carried same_size same_content r = record {
  after = r.after;
  returns = r.returns;
  same_size = r.same_size ∙ same_size;
  bytes = λ x h. r.bytes x (rw same_size h) ∙ ap (λ (c : ℕ → ℕ). c x) same_content;
}

-- An installation without `--uninstall` that succeeds and stores its uninstall data, on an open
-- device of less than 2 ^ 63 bytes of which no call fails, at the start of the program, with any
-- options and whatever stands on the device; and a later run with `--uninstall` and that file, on the
-- device as it was left, of which no call fails either. The later run succeeds, the device has the
-- length that it had before the installation, and every byte is the one that stood there then. The
-- image of the boot loader is between 1 KiB and 64 KiB long, and `malloc` gives no object of
-- 2 ^ 63 bytes.
pub bios_uninstall-bios_install :
    (host : Host) (options : Options) (t after stored u : Tool) (file : List ℕ)
    → IsHost host
    → t.faults ≡ []
    → t.device.size < 2 ^ 63
    → t.uninstall_data_i ≡ 0
    → t.uninstalling ≡ false
    → bios_install host options t ≡ (true, after)
    → store_uninstall_data host.bigendian after ≡ (some file, stored)
    → u.faults ≡ []
    → u.device.size ≡ after.device.size
    → u.device.content ≡ after.device.content
    → RolledBack t (bios_uninstall host.bigendian (some file) u)
unfolding reverse_uninstall_data
bios_uninstall-bios_install host options t after stored u file h calm small none_yet off installs
      stores calm' same_size same_content =
    let i = bios_install-Installed host options t after h calm small none_yet off installs in
    let size = same_size ∙ ap (λ (v : Tool). v.device.size) i.reversed ∙ i.kept.same.same_size in
    let content = same_content ∙ ap (λ (v : Tool). v.device.content) i.reversed in
    RolledBack-carried i.same_size i.same_content (
      reloaded-bytes i.fresh i.kept i.same_block host.bigendian u calm' size content (
        reloads i.fresh i.kept i.same_block host.bigendian u calm' size
          (omega (arith, size, i.same_size, i.big))
          (ap (store_uninstall_data host.bigendian) (sym i.reversed) ∙ stores)))
