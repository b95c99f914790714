-- ===== src/Irq/Tests.antt =====
-- lib/irq.c at an empty table.
use jonix.Tables.{Idt}

abbrev empty_idt : Idt
empty_idt i = record { base_low = 0; sel = 0; always0 = 0; flags = 0; base_high = 0 }
