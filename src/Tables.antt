-- ===== src/Tables.antt =====
-- lib/gdt.c and lib/idt.c: the entries of the two descriptor tables. The fields of an entry share no
-- bit, so `|` of them is a sum, and a shift to the left is a product.
pub mod Entry
mod Tests
use jonix.Base.{ℕ, ◌+◌, ◌-◌, ◌*◌, ◌/◌, ◌%◌, ◌^◌, Bool, true, false, ◌==◌, if◌then◌else◌}

pub record GdtEntry : Type 0 where
  pub low : ℕ
  pub high : ℕ

-- The argument `dpl` is a `bool`, so the mask with 3 leaves it 0 or 1.
pub gdt_entry : ℕ → ℕ → ℕ → Bool → GdtEntry
gdt_entry base limit type dpl = record {
  low = base % 2 ^ 16 * 2 ^ 16 + limit % 2 ^ 16;
  high =
      base / 2 ^ 16 % 2 ^ 8
      + base / 2 ^ 24 % 2 ^ 8 * 2 ^ 24
      + limit / 2 ^ 16 % 2 ^ 4 * 2 ^ 16
      + type % 2 ^ 5 * 2 ^ 8
      + (if dpl then 1 else 0) * 2 ^ 13
      + 2 ^ 15
      + 2 ^ 22
      + 2 ^ 23;
}

abbrev pub Gdt : Type 0
Gdt = ℕ → GdtEntry

pub gdt_set_entry : ℕ → ℕ → ℕ → ℕ → Bool → Gdt → Gdt
unfolding gdt_entry
gdt_set_entry index base limit type dpl gdt i =
    if i == index then gdt_entry base limit type dpl else gdt i

abbrev pub gdt_index_kern_code : ℕ
gdt_index_kern_code = 1

abbrev pub gdt_index_kern_data : ℕ
gdt_index_kern_data = 2

abbrev pub gdt_index_kern_tss : ℕ
gdt_index_kern_tss = 3

abbrev pub gdt_index_user_code : ℕ
gdt_index_user_code = 4

abbrev pub gdt_index_user_data : ℕ
gdt_index_user_data = 5

abbrev pub type_code_xr : ℕ
type_code_xr = 2 ^ 4 + 2 ^ 3 + 2 ^ 1

abbrev pub type_data_rw : ℕ
type_data_rw = 2 ^ 4 + 2 ^ 1

abbrev pub type_tss : ℕ
type_tss = 2 ^ 3 + 2 ^ 0

-- The entries that gdt_init makes, given the address of the TSS of the kernel and its size.
pub gdt_init : ℕ → ℕ → Gdt → Gdt
unfolding gdt_set_entry
gdt_init tss sizeof_tss gdt =
    let g0 = gdt_set_entry 0 0 0 0 false gdt in
    let g1 = gdt_set_entry gdt_index_kern_code 0 0xFFFFFFFF type_code_xr false g0 in
    let g2 = gdt_set_entry gdt_index_user_code 0 0xFFFFFFFF type_code_xr false g1 in
    let g3 = gdt_set_entry gdt_index_kern_data 0 0xFFFFFFFF type_data_rw false g2 in
    let g4 = gdt_set_entry gdt_index_user_data 0 0xFFFFFFFF type_data_rw false g3 in
    gdt_set_entry gdt_index_kern_tss tss (sizeof_tss - 1) type_tss false g4

pub record IdtEntry : Type 0 where
  pub base_low : ℕ
  pub sel : ℕ
  pub always0 : ℕ
  pub flags : ℕ
  pub base_high : ℕ

abbrev pub Idt : Type 0
Idt = ℕ → IdtEntry

unfoldable pub idt_set_entry : ℕ → ℕ → ℕ → ℕ → Idt → Idt
idt_set_entry num base sel flags idt i =
    if i == num
    then record {
      base_low = base % 2 ^ 16;
      sel = sel;
      always0 = 0;
      flags = flags;
      base_high = base / 2 ^ 16 % 2 ^ 16;
    }
    else idt i
