-- ===== src/Isr.antt =====
-- lib/isr.c, lib/syscall.c and lib/idt.c: the exceptions of the processor, the system calls, and the
-- interrupt table that main sets up with the interrupts of lib/irq.c.
pub mod Table
pub mod Calls
mod Tests
use Prim.Native.String.{String}
use jonix.Base.{
  ℕ, zero, suc, ◌+◌, Option, none, some, Bool, true, false, ltb, leb, ◌==◌, if◌then◌else◌, List, [],
  ◌∷◌, Ptr,
}
use jonix.Heap.{Outcome, done}
use jonix.Tables.{IdtEntry, Idt, idt_set_entry}
use jonix.Irq.{Writes, irq_init}
use jonix.Threads.{Kernel, syscall_sleep}
use jonix.Util.LinkedList.{Allocator}

-- isr_stack_kernel_t.
pub record IsrStack : Type 0 where
  pub gs : ℕ
  pub fs : ℕ
  pub es : ℕ
  pub ds : ℕ
  pub edi : ℕ
  pub esi : ℕ
  pub ebp : ℕ
  pub esp : ℕ
  pub ebx : ℕ
  pub edx : ℕ
  pub ecx : ℕ
  pub eax : ℕ
  pub int_no : ℕ
  pub err_code : ℕ
  pub eip : ℕ
  pub cs : ℕ
  pub eflags : ℕ

abbrev pub zero_entry : IdtEntry
zero_entry = record { base_low = 0; sel = 0; always0 = 0; flags = 0; base_high = 0 }

-- idt_init, but for the register of the processor.
abbrev pub idt_init : Idt
idt_init i = zero_entry

-- The calls of isr_init, with `left` to go from `num` on; `stub` gives the address of the assembly.
unfoldable pub isr_entries : ℕ → ℕ → (ℕ → Ptr) → Idt → Idt
isr_entries zero num stub idt = idt
isr_entries (suc left) num stub idt =
    isr_entries left (num + 1) stub (idt_set_entry num (stub num) 8 142 idt)

unfoldable pub isr_init : (ℕ → Ptr) → Idt → Idt
isr_init stub idt = isr_entries 32 0 stub idt

abbrev pub reserved : String
reserved = "Reserved Exception"

abbrev pub exception_messages : List String
exception_messages =
    "Division By Zero Exception" ∷ "Debug Exception" ∷ "Non Maskable Interrupt Exception"
    ∷ "Breakpoint Exception" ∷ "Into Detected Overflow Exception" ∷ "Out of Bounds Exception"
    ∷ "Invalid Opcode Exception" ∷ "No Coprocessor Exception" ∷ "Double Fault Exception"
    ∷ "Coprocessor Segment Overrun Exception" ∷ "Bad TSS Exception"
    ∷ "Segment Not Present Exception" ∷ "Stack Fault Exception"
    ∷ "General Protection Fault Exception" ∷ "Page Fault Exception" ∷ "Unknown Interrupt Exception"
    ∷ "Coprocessor Fault Exception" ∷ "Alignment Check Exception" ∷ "Machine Check Exception"
    ∷ reserved ∷ reserved ∷ reserved ∷ reserved ∷ reserved ∷ reserved ∷ reserved ∷ reserved
    ∷ reserved ∷ reserved ∷ reserved ∷ reserved ∷ reserved ∷ []

-- An access to the array, which is undefined beyond its end.
unfoldable pub message_at : List String → ℕ → Option String
message_at [] i = none
message_at (m ∷ ms) zero = some m
message_at (m ∷ ms) (suc i) = message_at ms i

-- What isr_handler does: it returns, or it prints a message and the error code and halts.
pub data IsrResult : Type 0 where
  returns : IsrResult
  halts : Option String → ℕ → IsrResult

unfoldable pub isr_handler : IsrStack → IsrResult
isr_handler stack =
    if ltb stack.int_no 32
    then halts (message_at exception_messages stack.int_no) stack.err_code
    else returns

abbrev pub syscall_no : ℕ
syscall_no = 1

-- The part of main that fills the table; `isr`, `irq` and `enter` are the addresses of the assembly.
unfoldable pub syscall_init_idt : Ptr → Idt → Idt
syscall_init_idt enter idt = idt_set_entry 128 enter 8 142 idt

unfoldable pub boot_idt : (ℕ → Ptr) → (ℕ → Ptr) → Ptr → Writes → Idt
boot_idt isr irq enter ws = syscall_init_idt enter (irq_init irq (isr_init isr idt_init) ws).0

module _ (A : Allocator) where
  -- A handler gets the address of the stack and what is on it.
  abbrev pub SyscallHandler : Type 0
  SyscallHandler = Kernel A → Ptr → IsrStack → Outcome (Kernel A)

  -- syscall_sleep, with what its variable holds for a unit that it does not know.
  abbrev pub sleep_handler : ℕ → ℕ → SyscallHandler
  sleep_handler fuel unset k stack regs = syscall_sleep A fuel k regs.ebx regs.ecx unset stack

  unfoldable pub syscall_init_handlers : ℕ → ℕ → (ℕ → SyscallHandler) → ℕ → SyscallHandler
  syscall_init_handlers fuel unset handlers i =
      if i == 0 then sleep_handler fuel unset else handlers i

  unfoldable pub syscall_handler :
      (ℕ → SyscallHandler) → Kernel A → Ptr → IsrStack → Outcome (Kernel A)
  syscall_handler handlers k stack regs =
      let called = handlers regs.eax k stack regs in
      if leb syscall_no regs.eax then done k else called
