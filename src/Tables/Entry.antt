-- ===== src/Tables/Entry.antt =====
-- lib/gdt.c and lib/idt.c: what the processor reads from the entries.
use jonix.Base.{ℕ, ◌+◌, ◌*◌, ◌/◌, ◌%◌, ◌^◌, ◌≡◌, ◌<◌, Bool, true, false, ◌==◌, if◌then◌else◌, arith}
use jonix.Tables.{GdtEntry, Gdt, gdt_entry, gdt_set_entry}

-- The fields of a descriptor, by the places that the processor takes them from.
abbrev pub base_of : GdtEntry → ℕ
base_of e = e.low / 2 ^ 16 + e.high % 2 ^ 8 * 2 ^ 16 + e.high / 2 ^ 24 * 2 ^ 24

abbrev pub limit_of : GdtEntry → ℕ
limit_of e = e.low % 2 ^ 16 + e.high / 2 ^ 16 % 2 ^ 4 * 2 ^ 16

abbrev pub type_of : GdtEntry → ℕ
type_of e = e.high / 2 ^ 8 % 2 ^ 5

abbrev pub level_of : GdtEntry → ℕ
level_of e = e.high / 2 ^ 13 % 2 ^ 2

-- The processor reads back the base, the low 20 bits of the limit, the low 5 bits of the type and
-- the privilege level that gdt_set_entry was given, which is 0 or 1.
pub gdt_set_entry-fields :
    (index base limit type : ℕ) (dpl : Bool) (gdt : Gdt)
    → base < 2 ^ 32
    → (base_of (gdt_set_entry index base limit type dpl gdt index) ≡ base)
      × (limit_of (gdt_set_entry index base limit type dpl gdt index) ≡ limit % 2 ^ 20)
      × (type_of (gdt_set_entry index base limit type dpl gdt index) ≡ type % 2 ^ 5)
      × (level_of (gdt_set_entry index base limit type dpl gdt index) ≡ (if dpl then 1 else 0))
unfolding gdt_set_entry gdt_entry
gdt_set_entry-fields index base limit type dpl gdt small =
    let here : (index == index) ≡ true = ground arith in rw here (level dpl)
  where
    level :
        (d : Bool)
        → (base_of (gdt_entry base limit type d) ≡ base)
          × (limit_of (gdt_entry base limit type d) ≡ limit % 2 ^ 20)
          × (type_of (gdt_entry base limit type d) ≡ type % 2 ^ 5)
          × (level_of (gdt_entry base limit type d) ≡ (if d then 1 else 0))
    level true = (omega arith, omega arith, omega arith, omega arith)
    level false = (omega arith, omega arith, omega arith, omega arith)
