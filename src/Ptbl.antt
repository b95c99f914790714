-- ===== src/Ptbl.antt =====
-- lib/devs/ptbl.c: the entries of a partition table.
pub mod Parse
mod Tests
use jonix.Base.{
  ℕ, zero, suc, ◌+◌, ◌-◌, ◌*◌, ◌%◌, ◌^◌, Bool, true, false, not, ◌||◌, Option, none, some, ◌==◌,
  if◌then◌else◌, Mem, Ptr, u32_mod,
}

pub record Partition : Type 0 where
  pub active : Bool
  pub start : ℕ
  pub size : ℕ
  pub fs_id : ℕ

-- Four bytes in little endian order.
pub read_le32 : Mem → Ptr → ℕ
read_le32 m p = (m p + m (p + 1) * 2 ^ 8 + m (p + 2) * 2 ^ 16 + m (p + 3) * 2 ^ 24) % u32_mod

-- The entry at `ptr`, if its boot indicator is valid and its file system is not 0. What kmalloc
-- returns is the value itself: the kernel stops if there is no memory.
pub ptbl_entry_parse : Mem → Ptr → Option Partition
unfolding read_le32
ptbl_entry_parse m ptr =
    if not ((m ptr == 0x80) || (m ptr == 0x00))
    then none
    else if m (ptr + 4) == 0
    then none
    else some (record {
      active = m ptr == 0x80;
      start = read_le32 m (ptr + 8);
      size = read_le32 m (ptr + 12);
      fs_id = m (ptr + 4);
    })

-- The loop of ptbl_parse, with `add` for list_add.
pub parse_entries : (L : Type 0) → (L → Partition → L × Bool) → ℕ → Mem → Ptr → L → L × Bool
unfolding ptbl_entry_parse
parse_entries L add zero m ptbl list = (list, true)
parse_entries L add (suc left) m ptbl list = elim (ptbl_entry_parse m ptbl) [
  | none ↦ parse_entries L add left m (ptbl + 16) list
  | some part ↦
      (let (list', added) = add list part in
        elim added [ true ↦ parse_entries L add left m (ptbl + 16) list' | false ↦ (list', false) ])
]

pub ptbl_parse : (L : Type 0) → (L → Partition → L × Bool) → Mem → Ptr → L → L × Bool
unfolding parse_entries
ptbl_parse L add m ptbl list = parse_entries L add 4 m ptbl list
