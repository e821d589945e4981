-- ===== src/Limine/Install/Stages.antt =====
-- The placement and the writes of stage 2 do nothing to the device but transfers.
use cell.Base.{
  ℕ, zero, suc, ◌+◌, ◌-◌, ◌*◌, ◌/◌, ◌%◌, ◌^◌, ◌<◌, arith, if◌then◌else◌, ◌||◌, ◌==◌, ltb, leb,
  bit_and, Bool, true, false,
}
use cell.Base.{Option, none, some, add64, sub64, mul64, u64_mod}
use cell.Base.Bits.{bit_and-le}
use cell.Limine.Endian.{w32, w64, field, load_le}
use cell.Limine.Endian.Swap.{endswap-load}
use cell.Limine.Gpt.{
  Host, Options, header_size, entry_size, partition_entry_lba, number_of_partition_entries,
  size_of_partition_entry, is_unused,
}
use cell.Limine.Gpt.Probe.{Gpt}
use cell.Limine.Gpt.Convert.{entry_at}
use cell.Limine.Install.Stage2.{
  Stage2, default_split, in_partition, align_down, use_partition, count_used, clear_entries,
  shrink_tables, embed, embed_at, place_gpt, place,
}
use cell.Limine.Install.Split.{default_split_lem}
use cell.Limine.Install.Write.{write_stages}
use cell.Limine.Install.Gpt.{IsHost}
use cell.Limine.Install.Steps.{
  IsSteps, Any, IsSteps-pure, IsSteps-fail, IsSteps-undefined, IsSteps-bind, IsSteps-if,
  IsSteps-guard, IsSteps-read, IsSteps-write, IsSteps-flush, IsSteps-for_loop,
}

-- A placement that can be written.
pub record IsPlaced (s : Stage2) : Type 0 where
  pub a_short : s.size_a < 2 ^ 16
  pub rest_short : sub64 s.stage2_size s.size_a < 2 ^ 16
  pub a_word : s.loc_a < u64_mod
  pub b_word : s.loc_b < u64_mod

default-IsPlaced : (host : Host) → IsHost host → IsPlaced (default_split host.image_size)
default-IsPlaced host h =
    let (size, half, _, _, a, b) = default_split_lem host.image_size h.long h.short in
    record {
      a_short = omega (arith, half, h.short);
      rest_short = omega (arith, size, half, h.short);
      a_word = omega (arith, a);
      b_word = omega (arith, b, half, h.short);
    }

field_size : (big : Bool) (header : ℕ → ℕ) → size_of_partition_entry big header < 2 ^ 63
unfolding field load_le
field_size big header = omega (arith, endswap-load big w32 (λ j. header (84 + j)))

aligned_word : (lb_size x : ℕ) → align_down lb_size x < u64_mod
aligned_word lb_size x = omega (arith, bit_and-le x (u64_mod - 1 - (lb_size - 1)))

in_partition-IsPlaced :
    (lb_size first : ℕ) (s : Stage2) → IsPlaced s → IsPlaced (in_partition lb_size first s)
unfolding in_partition
in_partition-IsPlaced lb_size first s p = record {
  a_short = p.a_short;
  rest_short = p.rest_short;
  a_word = omega arith;
  b_word = word (bit_and (add64 (mul64 first lb_size) s.size_a) (lb_size - 1) == 0);
}
  where
    word :
        (b : Bool)
        → (if b
            then add64 (mul64 first lb_size) s.size_a
            else align_down lb_size (add64 (add64 (mul64 first lb_size) s.size_a) lb_size))
          < u64_mod
    word true = omega arith
    word false = aligned_word lb_size (add64 (add64 (mul64 first lb_size) s.size_a) lb_size)

use_partition-IsSteps :
    (host : Host) (g : Gpt) (number : ℕ) (s : Stage2)
    → IsPlaced s
    → IsSteps IsPlaced (use_partition host g number s)
unfolding use_partition
use_partition-IsSteps host g number s p =
    let big = host.bigendian in
    let partition_num = (number + 2 ^ 32 - 1) % 2 ^ 32 in
    let at =
      add64 (mul64 (partition_entry_lba big g.header) g.lb_size)
        (partition_num * size_of_partition_entry big g.header % 2 ^ 32) in
    IsSteps-if (ltb (number_of_partition_entries big g.header) partition_num) (λ _. IsSteps-fail)
      (λ _. IsSteps-bind (IsSteps-read at entry_size (omega arith, omega arith)) (λ e _.
        IsSteps-if
          (is_unused big e
            || ltb (mul64 (add64 (sub64 (field big w64 e 40) (field big w64 e 32)) 1) g.lb_size)
                32768)
          (λ _. IsSteps-fail)
          (λ _.
            IsSteps-pure (in_partition g.lb_size (field big w64 e 32) s)
              (in_partition-IsPlaced g.lb_size (field big w64 e 32) s p))))

count_used-IsSteps :
    (big : Bool) (g : Gpt) (left i used : ℕ) → IsSteps Any (count_used big g left i used)
unfolding count_used
count_used-IsSteps big g zero i used = IsSteps-pure used tt
count_used-IsSteps big g (suc left) i used =
    IsSteps-bind (IsSteps-read (entry_at big g i) entry_size (omega arith, omega arith)) (λ e _.
      IsSteps-if (is_unused big e) (λ _. count_used-IsSteps big g left (i + 1) used)
        (λ _. count_used-IsSteps big g left (i + 1) (if leb used i then i + 1 else used)))

clear_entries-IsSteps :
    (big : Bool) (lb_size : ℕ) (header : ℕ → ℕ) (empty_size used count : ℕ)
    → IsSteps Any (clear_entries big lb_size header empty_size used count)
unfolding clear_entries
clear_entries-IsSteps big lb_size header empty_size used count =
    IsSteps-for_loop (count - used) used _ (λ i.
      IsSteps-if (ltb empty_size (size_of_partition_entry big header)) (λ _. IsSteps-undefined)
        (λ _. IsSteps-write _ _ _ (omega arith, field_size big header)))

shrink_tables-IsSteps :
    (host : Host) (g : Gpt) (used count : ℕ)
    → IsHost host
    → g.lb_size < 2 ^ 63
    → IsSteps Any (shrink_tables host g used count)
unfolding shrink_tables
shrink_tables-IsSteps host g used count h lb =
    let big = host.bigendian in
    let array_size = mul64 count (size_of_partition_entry big g.header) in
    let size = size_of_partition_entry big g.header in
    let empty_size = if host.available size then size else 0 in
    IsSteps-bind (clear_entries-IsSteps big g.lb_size g.header empty_size used count) (λ _ _.
      IsSteps-bind (clear_entries-IsSteps big g.lb_size g.secondary empty_size used count) (λ _ _.
        IsSteps-guard (host.available array_size) (λ given.
          IsSteps-bind (IsSteps-read _ array_size (omega arith, h.allocated array_size given))
            (λ _ _.
              IsSteps-bind (IsSteps-write _ g.lb_size header_size (omega arith, omega arith))
                (λ _ _. IsSteps-write _ _ header_size (omega arith, omega arith))))))

embed-IsSteps :
    (host : Host) (g : Gpt) (s : Stage2)
    → IsHost host
    → g.lb_size < 2 ^ 63
    → IsPlaced s
    → IsSteps IsPlaced (embed host g s)
unfolding embed
embed-IsSteps host g s h lb p =
    let big = host.bigendian in
    let size = size_of_partition_entry big g.header in
    let loc_a = embed_at big g.lb_size g.header s.size_a in
    let loc_b = embed_at big g.lb_size g.secondary s.size_b in
    let array_lbs = sub64 (loc_a / g.lb_size) (partition_entry_lba big g.header) in
    let count = mul64 array_lbs (g.lb_size / size) in
    IsSteps-bind (count_used-IsSteps big g (number_of_partition_entries big g.header) 0 0)
      (λ used _.
        IsSteps-bind
          (IsSteps-if {P = Any} (size == 0) (λ _. IsSteps-undefined) (λ _. IsSteps-pure tt tt))
          (λ _ _.
            IsSteps-bind
              (IsSteps-if {P = Any} (leb (2 ^ 63) count || ltb count used) (λ _. IsSteps-fail)
                (λ _. IsSteps-pure tt tt))
              (λ _ _. IsSteps-bind (shrink_tables-IsSteps host g used count h lb) (λ _ _.
                IsSteps-pure (record s { loc_a = loc_a; loc_b = loc_b })
                  (record {
                    a_short = p.a_short;
                    rest_short = p.rest_short;
                    a_word = aligned_word g.lb_size _;
                    b_word = aligned_word g.lb_size _;
                  })))))

place_gpt-IsSteps :
    (host : Host) (g : Gpt) (number : Option ℕ) (s : Stage2)
    → IsHost host
    → g.lb_size < 2 ^ 63
    → IsPlaced s
    → IsSteps IsPlaced (place_gpt host g number s)
place_gpt-IsSteps host g none s h lb p = embed-IsSteps host g s h lb p
place_gpt-IsSteps host g (some number) s h lb p = use_partition-IsSteps host g number s p

pub place-IsSteps :
    (host : Host) (options : Options) (g : Gpt) (gpt : Bool)
    → IsHost host
    → g.lb_size < 2 ^ 63
    → IsSteps IsPlaced (place host options g gpt)
unfolding place
place-IsSteps host options g gpt h lb =
    let s = default_split host.image_size in
    IsSteps-if gpt (λ _. place_gpt-IsSteps host g options.part_ndx s h lb (default-IsPlaced host h))
      (λ _. IsSteps-pure s (default-IsPlaced host h))

pub write_stages-IsSteps :
    (host : Host) (s : Stage2) → IsPlaced s → IsSteps Any (write_stages host s)
unfolding write_stages
write_stages-IsSteps host s p =
    IsSteps-bind (IsSteps-read 218 6 (omega arith, omega arith)) (λ timestamp _.
      IsSteps-bind (IsSteps-read 440 70 (omega arith, omega arith)) (λ orig_mbr _.
        IsSteps-bind (IsSteps-write _ 0 512 (omega arith, omega arith)) (λ _ _.
          IsSteps-bind (IsSteps-write _ s.loc_a s.size_a (p.a_word, omega (arith, p.a_short)))
            (λ _ _.
              IsSteps-bind (IsSteps-write _ s.loc_b _ (p.b_word, omega (arith, p.rest_short)))
                (λ _ _. IsSteps-bind (IsSteps-write _ _ 2 (omega arith, omega arith)) (λ _ _.
                  IsSteps-bind (IsSteps-write _ _ 2 (omega arith, omega arith)) (λ _ _.
                    IsSteps-bind (IsSteps-write _ _ 8 (omega arith, omega arith)) (λ _ _.
                      IsSteps-bind (IsSteps-write _ _ 8 (omega arith, omega arith)) (λ _ _.
                        IsSteps-bind (IsSteps-write timestamp 218 6 (omega arith, omega arith))
                          (λ _ _.
                            IsSteps-bind (IsSteps-write orig_mbr 440 70 (omega arith, omega arith))
                              (λ _ _. IsSteps-flush)))))))))))
