-- ===== src/Limine/Uninstall/Reloaded.antt =====
-- What the mode `--uninstall` of limine.c makes of the entries of a file that was stored.
use cell.Base.{
  ℕ, zero, suc, ◌-◌, ◌+◌, ◌≤◌, ◌<◌, ◌^◌, ◌≡◌, ◌≢◌, inl, inr, refl, sym, ap, ◌∙◌, arith, Bool,
  Option, some, List, [],
}
use native.Mathlib.Decide.{dec_le, dec_lt}
use cell.Limine.Tool.{Tool, UninstallData}
use cell.Limine.Device.Init.{IsFresh, device_init-eq, first_block}
use native.Mathlib.Nat.{div-mul-le_self}
use cell.Limine.Device.Part.{whole}
use cell.Limine.Device.Journal.{IsInside}
use cell.Limine.Uninstall.{reverse_uninstall_data, uninstall}
use cell.Limine.Uninstall.Restore.{old_byte, replay, IsInside-Keeps, IsUndoable, uninstall_lem}
use cell.Limine.Uninstall.Kept.{IsKept}
use cell.Limine.Uninstall.Rollback.{RolledBack, replay-reversed, reversed-IsInside}
use cell.Limine.Uninstall.Store.{
  store_uninstall_data, load_uninstall_data, bios_uninstall, loaded, uninstall_from,
}
use cell.Limine.Uninstall.Loaded.{
  IsStorable, SameEntry, filled-SameEntry, store_uninstall_data-file, load_uninstall_data-eq,
}
use cell.Limine.Uninstall.Saved.{filled}

same-old_byte : {a b : UninstallData} → SameEntry a b → (x v : ℕ) → old_byte a x v ≡ old_byte b x v
same-old_byte {a} {b} s x v = elim (dec_le b.loc x) [
  | yes low ↦ elim (dec_lt x (b.loc + b.count)) [
    | yes high ↦ ground (arith, s.same_loc, s.same_count, byte low high)
    | no high ↦ ground (arith, s.same_loc, s.same_count)
  ]
  | no low ↦ ground (arith, s.same_loc, s.same_count)
]
  where
    byte : b.loc ≤ x → x < b.loc + b.count → a.bytes (x - a.loc) ≡ b.bytes (x - b.loc)
    byte low high =
        ap (λ (l : ℕ). a.bytes (x - l)) s.same_loc ∙ s.same_bytes (x - b.loc) (omega arith)

same-replay :
    (left i : ℕ) (d e : ℕ → UninstallData)
    → ((k : ℕ) → i ≤ k → k < i + left → SameEntry (d k) (e k))
    → (x v : ℕ) → replay left i d x v ≡ replay left i e x v
unfolding replay
same-replay zero i d e same x v = refl
same-replay (suc left) i d e same x v =
    same-replay left (i + 1) d e (λ k low high. same k (omega arith) (omega arith)) x
      (old_byte (d i) x v)
    ∙ ap (replay left (i + 1) e x) (same-old_byte (same i (omega arith) (omega arith)) x v)

-- The entries of `t` after `load_uninstall_data`, and the device of `u`.
pub record Reread (t u : Tool) (result : Option (Unit {0}) × Tool) : Type 0 where
  pub after : Tool
  pub returns : result ≡ (some tt, after)
  pub same_device : after.device ≡ u.device
  pub same_number : after.uninstall_data_i ≡ t.uninstall_data_i
  pub same_entries :
      (k : ℕ) → k < t.uninstall_data_i → SameEntry (after.uninstall_data k) (t.uninstall_data k)

-- What `store_uninstall_data` writes where it succeeds, `load_uninstall_data` reads in any other
-- state: it succeeds, does not touch the device, and leaves as many entries, each with the place, the
-- size and the bytes of the one that was stored. There are at most 256 entries, their places and
-- sizes fit 64 bits, and no call of the C library fails.
pub load_uninstall_data-store_uninstall_data :
    (bigendian : Bool) (t stored u : Tool) (file : List ℕ)
    → t.faults ≡ []
    → t.uninstall_data_i < 257
    → ((k : ℕ)
        → k < t.uninstall_data_i
        → ((t.uninstall_data k).loc < 2 ^ 64) × ((t.uninstall_data k).count < 2 ^ 64))
    → store_uninstall_data bigendian t ≡ (some file, stored)
    → u.faults ≡ []
    → Reread t u (load_uninstall_data bigendian file u)
load_uninstall_data-store_uninstall_data bigendian t stored u file calm room words e calm' =
    let (full, same_file) = store_uninstall_data-file bigendian t calm e in
    record {
      after = record u {
        uninstall_data = filled bigendian t.uninstall_data_i 0 t.uninstall_data [] u.uninstall_data;
        uninstall_data_i = t.uninstall_data_i;
      };
      returns =
          ap (λ (l : List ℕ). load_uninstall_data bigendian l u) same_file
          ∙ load_uninstall_data-eq bigendian t u calm' (omega arith) (λ k h. record {
            not_empty = full k h;
            loc_word = (words k h).0;
            count_word = (words k h).1;
          });
      same_device = refl;
      same_number = refl;
      same_entries = λ k h.
          filled-SameEntry bigendian t.uninstall_data_i 0 t.uninstall_data [] u.uninstall_data k
            (omega arith) (omega arith);
    }

-- A later run, with the device as it was left.
module _ {start worked : Tool} (fresh : IsFresh start) (kept : IsKept start worked)
    (same_block : start.block_size ≡ 512) (bigendian : Bool) where
  abbrev left_behind : Tool
  left_behind = reverse_uninstall_data worked

  entry-IsStorable :
      (k : ℕ)
      → k < worked.uninstall_data_i
      → (left_behind.uninstall_data k).count ≢ 0
      → IsStorable (left_behind.uninstall_data k)
  entry-IsStorable k h full =
      from_inside (left_behind.uninstall_data k) full (reversed-IsInside kept k h)
    where
      from_inside :
          (ud : UninstallData) → ud.count ≢ 0 → IsInside start ud.loc ud.count → IsStorable ud
      from_inside ud full (inl e) = absurd (full e)
      from_inside ud full (inr fits) = record {
        not_empty = full;
        loc_word = omega (arith, bound ud fits);
        count_word = omega (arith, bound ud fits);
      }
        where
          bound :
              (ud : UninstallData) → ud.loc + ud.count ≤ whole start → ud.loc + ud.count < 2 ^ 63
          bound ud fits =
              omega
                (arith, fits, fresh.ready.small, div-mul-le_self start.device.size start.block_size)

  module _ (u : Tool) (calm : u.faults ≡ []) (same_size : u.device.size ≡ start.device.size) where
    -- The tool once it has read the file.
    abbrev reloaded : Tool
    reloaded = record (first_block u) {
      uninstall_data =
          filled bigendian left_behind.uninstall_data_i 0 left_behind.uninstall_data []
            u.uninstall_data;
      uninstall_data_i = left_behind.uninstall_data_i;
    }

    reloaded-SameEntry :
        (k : ℕ)
        → k < left_behind.uninstall_data_i
        → SameEntry (reloaded.uninstall_data k) (left_behind.uninstall_data k)
    reloaded-SameEntry k h =
        filled-SameEntry bigendian left_behind.uninstall_data_i 0 left_behind.uninstall_data []
          u.uninstall_data k (omega arith) (omega arith)

    reloaded-IsUndoable : IsUndoable reloaded
    unfolding reverse_uninstall_data
    reloaded-IsUndoable = record {
      calm = calm;
      sized = omega arith;
      small = rw same_size fresh.ready.small;
      entries_inside = λ k h.
          let s = reloaded-SameEntry k h in
          rw (s.same_loc, s.same_count)
            (IsInside-Keeps start reloaded _ _ same_size (sym same_block)
              (reversed-IsInside kept k h));
    }

    pub reloads :
        {file : List ℕ} {after : Tool}
        → 512 ≤ u.device.size
        → store_uninstall_data bigendian left_behind ≡ (some file, after)
        → bios_uninstall bigendian (some file) u ≡ uninstall reloaded
    unfolding bios_uninstall reverse_uninstall_data
    reloads {file} big e =
        let (full, same_file) = store_uninstall_data-file bigendian left_behind kept.same.calm e in
        ap (loaded bigendian (some file)) (device_init-eq u calm big)
        ∙ ap
            (λ (l : List ℕ).
              uninstall_from bigendian (load_uninstall_data bigendian l (first_block u)))
            same_file
        ∙ ap (uninstall_from bigendian) (
            load_uninstall_data-eq bigendian left_behind (first_block u) calm
              (omega (arith, kept.room)) (λ k h. entry-IsStorable k h (full k h)))

    -- Every byte is then the one that stood there before the installation.
    pub reloaded-bytes :
        {result : Bool × Tool}
        → u.device.content ≡ worked.device.content
        → result ≡ uninstall reloaded
        → RolledBack start result
    unfolding reverse_uninstall_data
    reloaded-bytes same_content e =
        let r = uninstall_lem reloaded-IsUndoable in
        record {
          after = r.after;
          returns = e ∙ r.returns;
          same_size = r.same_size ∙ same_size;
          bytes = λ x h.
              r.bytes x (rw same_size h)
              ∙ same-replay worked.uninstall_data_i 0 reloaded.uninstall_data
                  left_behind.uninstall_data (λ k low high. reloaded-SameEntry k (omega arith)) x
                  (u.device.content x)
              ∙ ap
                  (λ (c : ℕ → ℕ).
                    replay worked.uninstall_data_i 0 left_behind.uninstall_data x (c x))
                  same_content
              ∙ replay-reversed fresh kept x h;
        }
