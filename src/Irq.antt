-- ===== src/Irq.antt =====
-- lib/irq.c: the handlers of the hardware interrupts, their entries in the interrupt table, and the
-- writes to the two interrupt controllers, as a list of ports and bytes.
pub mod Timer
mod Tests
use jonix.Base.{
  ℕ, zero, suc, ◌+◌, ◌^◌, ◌<◌, ◌≤◌, ◌≡◌, ◌≢◌, refl, Bool, true, false, leb, ltb, ◌==◌,
  if◌then◌else◌, List, [], ◌∷◌, ◌++◌, Ptr, null, arith, Bool-cases, inl, inr, ne→==, eq→==,
}
use jonix.Tables.{IdtEntry, Idt, idt_set_entry}

abbrev pub Handlers : Type 0
Handlers = ℕ → Ptr

abbrev pub Writes : Type 0
Writes = List (ℕ × ℕ)

unfoldable pub irq_set_handler : ℕ → Ptr → Handlers → Handlers
irq_set_handler irq handler handlers i = if i == irq then handler else handlers i

unfoldable pub irq_unset_handler : ℕ → Handlers → Handlers
irq_unset_handler irq handlers i = if i == irq then null else handlers i

abbrev pub irq_remap : Writes → Writes
irq_remap ws =
    ws
    ++ (32, 17)
      ∷ (160, 17)
      ∷ (33, 32)
      ∷ (161, 40)
      ∷ (33, 4)
      ∷ (161, 2)
      ∷ (33, 1)
      ∷ (161, 1)
      ∷ (33, 0)
      ∷ (161, 0)
      ∷ []

-- The calls of idt_set_entry in irq_init; `stub` gives the address of the assembly that is entered for
-- an interrupt. The entry 40 is left out, and those from interrupt 8 on are one too high.
unfoldable pub irq_init : (ℕ → Ptr) → Idt → Writes → Idt × Writes
irq_init stub idt ws =
    let entry : ℕ → ℕ → Idt → Idt = λ num irq. idt_set_entry num (stub irq) 8 142 in
    (
      entry 48 15 (
          entry 47 14 (
            entry 46 13 (
              entry 45 12 (
                entry 44 11 (
                  entry 43 10 (
                    entry 42 9 (
                      entry 41 8 (
                        entry 39 7 (
                          entry 38 6 (
                            entry 37 5 (
                              entry 36 4
                                (entry 35 3 (entry 34 2 (entry 33 1 (entry 32 0 idt))))))))))))))),
      irq_remap ws,
    )

unfoldable pub irq_end_of_interrupt : ℕ → Writes → Writes
irq_end_of_interrupt int_no ws =
    if leb 40 int_no then ws ++ (160, 32) ∷ (32, 32) ∷ [] else ws ++ (32, 32) ∷ []

-- What the handler of an interrupt does is an argument: `run` takes its address, and NULL is not called.
unfoldable pub irq_handler : {S : Type 0} → (Ptr → S → S) → Handlers → ℕ → S → Writes → S × Writes
irq_handler run handlers int_no s ws =
    let handler = handlers int_no in
    (if handler == null then s else run handler s, irq_end_of_interrupt int_no ws)

-- The entry of an interrupt: that from which the processor enters it for the first controller, and one
-- too high for the second.
abbrev pub irq_entry : ℕ → ℕ
irq_entry irq = if ltb irq 8 then 32 + irq else 33 + irq

-- After irq_init, for each of the 16 interrupts, the entry 32 + irq (33 + irq from interrupt 8 on)
-- leads to the assembly of that interrupt, and the entry 40 is as it was.
pub irq_init-entries :
    (stub : ℕ → Ptr) (idt : Idt) (ws : Writes) (irq : ℕ)
    → irq < 16
    → ((irq_init stub idt ws).0 (irq_entry irq)
        ≡ idt_set_entry (irq_entry irq) (stub irq) 8 142 idt (irq_entry irq))
      × ((irq_init stub idt ws).0 40 ≡ idt 40)
unfolding irq_init idt_set_entry
irq_init-entries stub idt ws zero lt = (refl, refl)
irq_init-entries stub idt ws (suc zero) lt = (refl, refl)
irq_init-entries stub idt ws (suc (suc zero)) lt = (refl, refl)
irq_init-entries stub idt ws (suc (suc (suc zero))) lt = (refl, refl)
irq_init-entries stub idt ws (suc (suc (suc (suc zero)))) lt = (refl, refl)
irq_init-entries stub idt ws (suc (suc (suc (suc (suc zero))))) lt = (refl, refl)
irq_init-entries stub idt ws (suc (suc (suc (suc (suc (suc zero)))))) lt = (refl, refl)
irq_init-entries stub idt ws (suc (suc (suc (suc (suc (suc (suc zero))))))) lt = (refl, refl)
irq_init-entries stub idt ws (suc (suc (suc (suc (suc (suc (suc (suc zero)))))))) lt = (refl, refl)
irq_init-entries stub idt ws (suc (suc (suc (suc (suc (suc (suc (suc (suc zero))))))))) lt =
    (refl, refl)
irq_init-entries stub idt ws (suc (suc (suc (suc (suc (suc (suc (suc (suc (suc zero)))))))))) lt =
    (refl, refl)
irq_init-entries stub idt ws (suc (suc (suc (suc (suc (suc (suc (suc (suc (suc (suc zero)))))))))))
      lt =
    (refl, refl)
irq_init-entries stub idt ws
      (suc (suc (suc (suc (suc (suc (suc (suc (suc (suc (suc (suc zero)))))))))))) lt =
    (refl, refl)
irq_init-entries stub idt ws
      (suc (suc (suc (suc (suc (suc (suc (suc (suc (suc (suc (suc (suc zero))))))))))))) lt =
    (refl, refl)
irq_init-entries stub idt ws
      (suc (suc (suc (suc (suc (suc (suc (suc (suc (suc (suc (suc (suc (suc zero)))))))))))))) lt =
    (refl, refl)
irq_init-entries stub idt ws
      (suc (suc (suc (suc (suc (suc (suc (suc (suc (suc (suc (suc (suc (suc (suc zero)))))))))))))))
      lt =
    (refl, refl)
irq_init-entries stub idt ws
      (suc
        (suc (suc (suc (suc (suc (suc (suc (suc (suc (suc (suc (suc (suc (suc (suc n))))))))))))))))
      lt =
    absurd (omega (arith, lt))

-- For the numbers that the assembly hands over, which are those of the interrupts, only the first
-- controller is told of the end, after the handler that was set last has run.
irq_handler-set :
    {S : Type 0} (run : Ptr → S → S) (handlers : Handlers) (irq : ℕ) (handler : Ptr) (s : S)
    (ws : Writes)
    → irq < 16
    → handler ≢ null
    → irq_handler run (irq_set_handler irq handler handlers) irq s ws
      ≡ (run handler s, ws ++ (32, 32) ∷ [])
unfolding irq_handler irq_set_handler irq_end_of_interrupt
irq_handler-set run handlers irq handler s ws lt real =
    let first : leb 40 irq ≡ false = ground (arith, lt) in
    rw (eq→== irq irq refl, ne→== handler null real, first) refl
