-- ===== src/Isr/Table.antt =====
-- lib/idt.c, lib/isr.c, lib/irq.c and lib/syscall.c: the interrupt table after the boot.
use native.Mathlib.Decide.{ℕ_discrete}
use jonix.Base.{
  ℕ, zero, suc, ◌+◌, ◌-◌, ◌/◌, ◌%◌, ◌^◌, ◌<◌, ◌≡◌, ◌⊎◌, ap, ◌∙◌, sym, ltb, ◌==◌, if◌then◌else◌, Ptr,
  arith, Bool-cases, inl, inr, in_range,
}
use jonix.Tables.{IdtEntry, Idt, idt_set_entry}
use jonix.Irq.{Writes, irq_init, irq_init-entries, irq_entry}
use jonix.Isr.{isr_entries, isr_init, idt_init, zero_entry, syscall_init_idt, boot_idt}

-- An interrupt gate of the kernel's code segment.
abbrev pub gate : Ptr → IdtEntry
gate base = record {
  base_low = base % 2 ^ 16;
  sel = 8;
  always0 = 0;
  flags = 142;
  base_high = base / 2 ^ 16 % 2 ^ 16;
}

-- What each entry leads to.
abbrev pub entry_after_boot : (ℕ → Ptr) → (ℕ → Ptr) → Ptr → Idt
entry_after_boot isr irq enter num =
    if ltb num 32
    then gate (isr num)
    else if ltb num 40
    then gate (irq (num - 32))
    else if num == 40
    then zero_entry
    else if ltb num 49
    then gate (irq (num - 33))
    else if num == 128
    then gate enter
    else zero_entry

isr_entries-at :
    (left num : ℕ) (stub : ℕ → Ptr) (idt : Idt) (i : ℕ)
    → isr_entries left num stub idt i ≡ (if in_range num left i then gate (stub i) else idt i)
unfolding isr_entries idt_set_entry
isr_entries-at zero num stub idt i = ground arith
isr_entries-at (suc left) num stub idt i =
    isr_entries-at left (num + 1) stub (idt_set_entry num (stub num) 8 142 idt) i
    ∙ elim (ℕ_discrete i num) [
      | yes e ↦ ground (arith, e, ap (λ j. gate (stub j)) e)
      | no ne ↦ ground (arith, ne)
    ]

irq_init-outside :
    (stub : ℕ → Ptr) (idt : Idt) (ws : Writes) (i : ℕ)
    → (i < 32) ⊎ (48 < i)
    → (irq_init stub idt ws).0 i ≡ idt i
unfolding irq_init idt_set_entry
irq_init-outside stub idt ws i (inl lt) = ground (arith, lt)
irq_init-outside stub idt ws i (inr gt) = ground (arith, gt)

isr_init-at :
    (stub : ℕ → Ptr) (i : ℕ)
    → isr_init stub idt_init i ≡ (if ltb i 32 then gate (stub i) else zero_entry)
unfolding isr_init
isr_init-at stub i = isr_entries-at 32 0 stub idt_init i ∙ ground arith

-- The entry of an interrupt number below 16.
irq_init-gate :
    (stub : ℕ → Ptr) (idt : Idt) (ws : Writes) (i irq : ℕ)
    → irq < 16
    → irq_entry irq ≡ i
    → (irq_init stub idt ws).0 i ≡ gate (stub irq)
unfolding idt_set_entry
irq_init-gate stub idt ws i irq lt e =
    ap (λ (j : ℕ). (irq_init stub idt ws).0 j) (sym e)
    ∙ (irq_init-entries stub idt ws irq lt).0
    ∙ ground arith

-- After the calls of main, every entry of the interrupt table: the first 32 lead to the assembly of
-- the exceptions, 32 to 39 to that of the interrupts 0 to 7, 41 to 48 to that of the interrupts 8
-- to 15, and 0x80 to that of the system calls, each as a gate of the kernel; all others, and 40
-- with them, are 0.
pub boot_idt-entries :
    (isr irq : ℕ → Ptr) (enter : Ptr) (ws : Writes) (num : ℕ)
    → boot_idt isr irq enter ws num ≡ entry_after_boot isr irq enter num
unfolding boot_idt syscall_init_idt idt_set_entry
boot_idt-entries isr irq enter ws num =
    let idt = isr_init isr idt_init in
    let at = isr_init-at isr num in
    elim (Bool-cases (ltb num 32)) [
      | inl lt ↦
          let out = irq_init-outside irq idt ws num (inl (ground (arith, lt))) in
          ground (arith, lt, out, at)
      | inr ge ↦ elim (Bool-cases (ltb num 40)) [
        | inl lt ↦
            let g =
              irq_init-gate irq idt ws num (num - 32) (ground (arith, lt))
                (ground (arith, lt, ge)) in
            ground (arith, lt, ge, g)
        | inr ge40 ↦ elim (ℕ_discrete num 40) [
          | yes e ↦
              let g =
                ap (λ (j : ℕ). (irq_init irq idt ws).0 j) e
                ∙ (irq_init-entries irq idt ws 0 (omega arith)).1 in
              ground (arith, e, g, isr_init-at isr 40)
          | no ne ↦ elim (Bool-cases (ltb num 49)) [
            | inl lt ↦
                let g =
                  irq_init-gate irq idt ws num (num - 33) (ground (arith, lt))
                    (ground (arith, lt, ge40, ne)) in
                ground (arith, lt, ge, ge40, ne, g)
            | inr ge49 ↦
                let out = irq_init-outside irq idt ws num (inr (ground (arith, ge49))) in
                ground (arith, ge, ge40, ne, ge49, out, at)
          ]
        ]
      ]
    ]
