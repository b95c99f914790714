-- ===== src/Tables/Tests.antt =====
-- lib/gdt.c at the segment of the kernel's code.
use jonix.Base.{◌≡◌, false, arith}
use jonix.Tables.{GdtEntry, Gdt, gdt_set_entry, type_code_xr}
use jonix.Tables.Entry.{base_of, limit_of, type_of, level_of, gdt_set_entry-fields}

abbrev no_entries : Gdt
no_entries i = record { low = 0; high = 0 }

abbrev kernel_code : GdtEntry
kernel_code = gdt_set_entry 1 0x12345678 0xFFFFFFFF type_code_xr false no_entries 1

gdt_set_entry-fields_example :
    (base_of kernel_code ≡ 0x12345678)
    × (limit_of kernel_code ≡ 0xFFFFF)
    × (type_of kernel_code ≡ 26)
    × (level_of kernel_code ≡ 0)
gdt_set_entry-fields_example =
    gdt_set_entry-fields 1 0x12345678 0xFFFFFFFF type_code_xr false no_entries (omega arith)
