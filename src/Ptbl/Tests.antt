-- ===== src/Ptbl/Tests.antt =====
-- lib/devs/ptbl.c at the entry of an active partition.
use jonix.Base.{
  ℕ, ◌+◌, ◌-◌, ◌/◌, ◌%◌, ◌^◌, ◌≡◌, ◌==◌, ltb, if◌then◌else◌, refl, ap, true, Mem, some, arith,
}
use jonix.Ptbl.{Partition, ptbl_entry_parse}
use jonix.Ptbl.Parse.{IsEntry, ptbl_entry_parse-IsEntry}

abbrev linux : Partition
linux = record { active = true; start = 2048; size = 204800; fs_id = 0x83 }

abbrev linux_entry : Mem
linux_entry a =
    if a == 0
    then 0x80
    else if a == 4
    then 0x83
    else if ltb a 12
    then 2048 / (2 ^ 8) ^ (a - 8) % 2 ^ 8
    else 204800 / (2 ^ 8) ^ (a - 12) % 2 ^ 8

linux-IsEntry : IsEntry linux_entry 0 linux
linux-IsEntry = record {
  boot = refl;
  kind = refl;
  start = λ i lt. ground (arith, ap (λ (n : ℕ). 2048 / (2 ^ 8) ^ n % 2 ^ 8) (back i));
  size = λ i lt. ground (arith, ap (λ (n : ℕ). 204800 / (2 ^ 8) ^ n % 2 ^ 8) (back2 i));
}
  where
    back : (i : ℕ) → 0 + 8 + i - 8 ≡ i
    back i = omega arith

    back2 : (i : ℕ) → 0 + 12 + i - 12 ≡ i
    back2 i = omega arith

ptbl_entry_parse-IsEntry_example : ptbl_entry_parse linux_entry 0 ≡ some linux
ptbl_entry_parse-IsEntry_example =
    ptbl_entry_parse-IsEntry linux_entry 0 linux linux-IsEntry (λ e. omega (arith, e)) (omega arith)
      (omega arith)
