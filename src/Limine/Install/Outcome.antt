-- ===== src/Limine/Install/Outcome.antt =====
-- `bios_install` either succeeds or leaves the device as it was.
use cell.Base.{
  Bool-cases, inl, inr, none, if◌then◌else◌, subst, ℕ, ◌<◌, ◌^◌, ◌≡◌, sym, ap, ◌∙◌, arith, Bool,
  true, false, Option, [],
}
use native.Mathlib.Decide.{dec_le}
use cell.Limine.Tool.{Tool}
use cell.Limine.Device.{device_init}
use cell.Limine.Device.Init.{IsFresh, Initialised, Unread, device_init_lem}
use cell.Limine.Uninstall.{undo_work}
use cell.Limine.Uninstall.Work.{begun}
use cell.Limine.Uninstall.Rollback.{RolledBack, undo_work_lem}
use cell.Limine.Gpt.{Host, Options}
use cell.Limine.Install.Write.{install, check_table, cleanup, after_init, bios_install}
use cell.Limine.Install.Gpt.{IsHost, probe-IsSteps, check_secondary-IsSteps, convert-IsSteps}
use cell.Limine.Install.Checks.{check_mbr-IsSteps}
use cell.Limine.Install.Stages.{place-IsSteps, write_stages-IsSteps}
use cell.Limine.Install.Steps.{
  Leads, goes_on, stops, breaks, IsSteps, Any, IsSteps-pure, IsSteps-fail, IsSteps-bind, IsSteps-if,
}

check_table-IsSteps :
    (host : Host) (options : Options) (gpt : Bool) → IsSteps Any (check_table host options gpt)
unfolding check_table
check_table-IsSteps host options gpt =
    IsSteps-if gpt (λ _. IsSteps-pure tt tt)
      (λ _.
        IsSteps-bind (check_mbr-IsSteps host.bigendian options.force_mbr)
          (λ mbr _. IsSteps-if mbr (λ _. IsSteps-pure tt tt) (λ _. IsSteps-fail)))

pub install-IsSteps :
    (host : Host) (options : Options) → IsHost host → IsSteps Any (install host options)
unfolding install
install-IsSteps host options h = IsSteps-bind (probe-IsSteps options) (λ found small.
    IsSteps-bind (check_secondary-IsSteps host found small) (λ g small'.
      IsSteps-bind (convert-IsSteps host options g h) (λ gpt _.
        IsSteps-bind (check_table-IsSteps host options gpt) (λ _ _.
          IsSteps-bind (place-IsSteps host options g gpt h small')
            (λ s placed. write_stages-IsSteps host s placed)))))

-- The exit code is 0, or the device is as it was.
pub data DoneOrUndone (t : Tool) : Bool × Tool → Type 0 where
  done : {after : Tool} → DoneOrUndone t (true, after)
  undone :
      {after : Tool}
      → after.device.size ≡ t.device.size
      → ((x : ℕ) → x < t.device.size → after.device.content x ≡ t.device.content x)
      → DoneOrUndone t (false, after)

RolledBack-DoneOrUndone :
    {start : Tool} {result : Bool × Tool}
    → RolledBack start result
    → DoneOrUndone start (false, result.1)
RolledBack-DoneOrUndone {start} r =
    subst (λ (p : Bool × Tool). DoneOrUndone start (false, p.1)) (sym r.returns)
      (undone r.same_size r.bytes)

cleanup-broken : (t : Tool) → t.undefined ≡ true → (cleanup (none, t)).1.undefined ≡ true
cleanup-broken t e = ap (λ (b : Bool). (if b then t else (undo_work t).1).undefined) e ∙ e

cleanup-undone : (t : Tool) → t.undefined ≡ false → cleanup (none, t) ≡ (false, (undo_work t).1)
cleanup-undone t e = simp e

cleanup-DoneOrUndone :
    {start : Tool} {result : Option (Unit {0}) × Tool}
    → IsFresh start
    → Leads Any start result
    → (cleanup result).1.undefined ≡ false
    → DoneOrUndone start (cleanup result)
cleanup-DoneOrUndone f (goes_on _ _) defined = done
cleanup-DoneOrUndone {start} f (stops {t} work) defined = elim (Bool-cases t.undefined) [
  | inl e ↦ absurd (cc (sym (cleanup-broken t e) ∙ defined))
  | inr e ↦
      subst (DoneOrUndone start) (sym (cleanup-undone t e))
        (RolledBack-DoneOrUndone (undo_work_lem f work))
]
cleanup-DoneOrUndone f (breaks {t} e) defined = absurd (cc (sym (cleanup-broken t e) ∙ defined))

carried :
    {start t : Tool} {result : Bool × Tool}
    → start.device.size ≡ t.device.size
    → start.device.content ≡ t.device.content
    → DoneOrUndone start result
    → DoneOrUndone t result
carried same_size same_content done = done
carried same_size same_content (undone size bytes) =
    undone (size ∙ same_size)
      (λ x h. bytes x (rw same_size h) ∙ ap (λ (c : ℕ → ℕ). c x) same_content)

-- `bios_install` without `--uninstall` on an open device of less than 2 ^ 63 bytes of which no
-- call fails, at the start of the program, with any options and whatever stands on the device,
-- where the run comes to nothing that C leaves undefined: it exits with success, or the device has
-- the length that it had before and every byte of it is the one that stood there before. Undefined
-- is to store a fifth partition to convert, to divide by an entry size of 0, and to clear a table
-- whose entries are larger than the buffer of zeros that was allocated, which has the size of an
-- entry of the primary table. The image of the boot loader is between 1 KiB and 64 KiB long, and
-- `malloc` gives no object of 2 ^ 63 bytes.
pub bios_install_lem :
    (host : Host) (options : Options) (t : Tool)
    → IsHost host
    → t.faults ≡ []
    → t.device.size < 2 ^ 63
    → t.uninstall_data_i ≡ 0
    → t.uninstalling ≡ false
    → (bios_install host options t).1.undefined ≡ false
    → DoneOrUndone t (bios_install host options t)
unfolding bios_install
bios_install_lem host options t h calm small none_yet off defined =
    let (big, short) = device_init_lem {t = t} calm small none_yet off in
    elim (dec_le 512 t.device.size) [
      | yes enough ↦ started (big enough)
      | no few ↦ unread (short (omega arith))
    ]
  where
    started :
        Initialised t (device_init t) → DoneOrUndone t (after_init host options (device_init t))
    started i =
        let e = ap (after_init host options) i.returns in
        carried i.same_size i.same_content (
          subst (DoneOrUndone i.after) (sym e) (
            cleanup-DoneOrUndone i.fresh (install-IsSteps host options h i.after i.after begun)
              (ap (λ (r : Bool × Tool). r.1.undefined) (sym e) ∙ defined)))

    unread : Unread t (device_init t) → DoneOrUndone t (after_init host options (device_init t))
    unread u =
        subst (λ (r : Option (Unit {0}) × Tool). DoneOrUndone t (after_init host options r))
          (sym u.returns)
          (undone u.same_device_size (λ x _. ap (λ (c : ℕ → ℕ). c x) u.same_device_content))
