-- ===== src/Isr/Calls.antt =====
-- lib/isr.c and lib/syscall.c: the accesses to the two arrays stay inside them.
use Prim.Native.String.{String}
use jonix.Base.{
  ℕ, zero, suc, ◌≤◌, ◌<◌, ◌≡◌, refl, some, true, false, ltb, leb, ◌==◌, if◌then◌else◌, List, [],
  ◌∷◌, length, Ptr, arith, Bool-cases, inl, inr,
}
use jonix.Heap.{done}
use jonix.Util.LinkedList.{Allocator}
use jonix.Threads.{Kernel, syscall_sleep}
use jonix.Isr.{
  IsrStack, exception_messages, message_at, isr_handler, halts, returns, SyscallHandler,
  syscall_init_handlers, syscall_handler,
}

message_at-some :
    (ms : List String) (i : ℕ) → i < length ms → (m : String) × (message_at ms i ≡ some m)
unfolding message_at
message_at-some [] i lt = ground (arith, lt)
message_at-some (m ∷ ms) zero lt = (m, refl)
message_at-some (m ∷ ms) (suc i) lt = message_at-some ms i (omega (arith, lt))

-- isr_handler halts with a message that is in the array, and with the error code, for each of the
-- 32 exceptions; for every other number it returns.
pub isr_handler-message :
    (stack : IsrStack)
    → (stack.int_no < 32 → (m : String) × (isr_handler stack ≡ halts (some m) stack.err_code))
      × (32 ≤ stack.int_no → isr_handler stack ≡ returns)
unfolding isr_handler
isr_handler-message stack = (exception, other)
  where
    exception :
        stack.int_no < 32 → (m : String) × (isr_handler stack ≡ halts (some m) stack.err_code)
    exception lt =
        let (m, e) = message_at-some exception_messages stack.int_no lt in
        let small : ltb stack.int_no 32 ≡ true = ground (arith, lt) in (m, rw (small, e) refl)

    other : 32 ≤ stack.int_no → isr_handler stack ≡ returns
    other le = let large : ltb stack.int_no 32 ≡ false = ground (arith, le) in rw large refl

-- What syscall_init sets is what syscall_handler calls, and nothing else of the array: for eax 0
-- the call is syscall_sleep of ebx and ecx, and for every other number the kernel is left as it is.
pub syscall_handler-calls :
    (A : Allocator) (fuel unset : ℕ) (handlers : ℕ → SyscallHandler A) (k : Kernel A) (stack : Ptr)
    (regs : IsrStack)
    → syscall_handler A (syscall_init_handlers A fuel unset handlers) k stack regs
      ≡ (if regs.eax == 0 then syscall_sleep A fuel k regs.ebx regs.ecx unset stack else done k)
unfolding syscall_handler syscall_init_handlers
syscall_handler-calls A fuel unset handlers k stack regs = elim (Bool-cases (regs.eax == 0)) [
  | inl e ↦ let small : leb 1 regs.eax ≡ false = ground (arith, e) in rw (small, e) refl
  | inr e ↦ let large : leb 1 regs.eax ≡ true = ground (arith, e) in rw (large, e) refl
]
