-- ===== src/Ptbl/Parse.antt =====
-- lib/devs/ptbl.c: an entry that is written in the format of the table is read back.
use jonix.Base.{
  ℕ, ◌+◌, ◌/◌, ◌%◌, ◌^◌, ◌≡◌, ◌≢◌, ◌<◌, refl, some, if◌then◌else◌, Mem, Ptr, arith, ne→==,
  Bool-cases, inl, inr,
}
use jonix.Ptbl.{Partition, read_le32, ptbl_entry_parse}

-- The format of an entry: the boot indicator, the kind of the file system, and two numbers in
-- little endian order.
pub record IsEntry (m : Mem) (ptr : Ptr) (part : Partition) : Type 0 where
  pub boot : m ptr ≡ (if part.active then 0x80 else 0)
  pub kind : m (ptr + 4) ≡ part.fs_id
  pub start : (i : ℕ) → i < 4 → m (ptr + 8 + i) ≡ part.start / (2 ^ 8) ^ i % 2 ^ 8
  pub size : (i : ℕ) → i < 4 → m (ptr + 12 + i) ≡ part.size / (2 ^ 8) ^ i % 2 ^ 8

read_le32-digits :
    (m : Mem) (p n : ℕ)
    → n < 2 ^ 32
    → ((i : ℕ) → i < 4 → m (p + i) ≡ n / (2 ^ 8) ^ i % 2 ^ 8)
    → read_le32 m p ≡ n
unfolding read_le32
read_le32-digits m p n small digit =
    let d0 : m p ≡ n % 2 ^ 8 = ground (arith, digit 0 (omega arith)) in
    let d1 : m (p + 1) ≡ n / 2 ^ 8 % 2 ^ 8 = digit 1 (omega arith) in
    let d2 : m (p + 2) ≡ n / 2 ^ 16 % 2 ^ 8 = digit 2 (omega arith) in
    let d3 : m (p + 3) ≡ n / 2 ^ 24 % 2 ^ 8 = digit 3 (omega arith) in omega arith

-- ptbl_entry_parse reads every partition whose file system is not 0 from its entry.
pub ptbl_entry_parse-IsEntry :
    (m : Mem) (ptr : Ptr) (part : Partition)
    → IsEntry m ptr part
    → part.fs_id ≢ 0
    → part.start < 2 ^ 32
    → part.size < 2 ^ 32
    → ptbl_entry_parse m ptr ≡ some part
unfolding ptbl_entry_parse
ptbl_entry_parse-IsEntry m ptr part is kind start size =
    let s = read_le32-digits m (ptr + 8) part.start start is.start in
    let z = read_le32-digits m (ptr + 12) part.size size is.size in
    elim (Bool-cases part.active) [
      | inl on ↦ rw (is.boot, is.kind, ne→== _ _ kind, s, z, on) refl
      | inr off ↦ rw (is.boot, is.kind, ne→== _ _ kind, s, z, off) refl
    ]
