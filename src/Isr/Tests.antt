-- ===== src/Isr/Tests.antt =====
-- lib/isr.c and lib/syscall.c at a page fault and at a call of sleep.
use jonix.Base.{ℕ, ◌+◌, ◌*◌, ◌≡◌, ◌==◌, if◌then◌else◌, [], Ptr, false}
use jonix.Heap.{done}
use jonix.Util.LinkedList.{Allocator, list_new}
use jonix.Threads.{Kernel, syscall_sleep}
use jonix.Isr.{IsrStack, boot_idt, syscall_init_handlers, syscall_handler}
use jonix.Isr.Table.{entry_after_boot, boot_idt-entries}
use jonix.Isr.Calls.{syscall_handler-calls}

-- The assembly of the exceptions and of the interrupts.
abbrev isr_stub : ℕ → Ptr
isr_stub n = 0x100000 + 16 * n

abbrev irq_stub : ℕ → Ptr
irq_stub n = 0x101000 + 16 * n

boot_idt-entries_example :
    boot_idt isr_stub irq_stub 0x102000 [] 14 ≡ entry_after_boot isr_stub irq_stub 0x102000 14
boot_idt-entries_example = boot_idt-entries isr_stub irq_stub 0x102000 [] 14

abbrev page_fault : IsrStack
page_fault = record {
  gs = 16;
  fs = 16;
  es = 16;
  ds = 16;
  edi = 0;
  esi = 0;
  ebp = 0;
  esp = 0;
  ebx = 5;
  edx = 0;
  ecx = 115;
  eax = 0;
  int_no = 14;
  err_code = 2;
  eip = 0x100000;
  cs = 8;
  eflags = 0x202;
}

abbrev bump : Allocator
bump = record { State = ℕ; kmalloc = λ s n. (s + 16, s + 16); kfree = λ s p. s }

abbrev kernel : Kernel bump
kernel = record {
  heap = 1000;
  nodes = λ p. record { value = 0; next = 0; prev = 0 };
  threads = λ p. record {
    tid = 0;
    pid = 0;
    state = 0;
    priority = 1;
    priv = 0;
    sem = 0;
    has_msg = false;
    stack_base = 0;
    stack_size = 0;
    kstack_base = 0;
    kstack_size = 0;
    kstack_ptr = 0;
    page_dir = 0;
    name = [];
  };
  entries = λ p. record { thread = 0; time = 0 };
  thr_ready = list_new;
  thr_sleep = list_new;
  thr_current = 12;
  time_ticks = 0;
}

syscall_handler-calls_example :
    syscall_handler bump
      (syscall_init_handlers bump 10 0 (λ i k stack regs. done k))
      kernel
      0x9000
      page_fault
    ≡ (if 0 == 0 then syscall_sleep bump 10 kernel 5 115 0 0x9000 else done kernel)
syscall_handler-calls_example =
    syscall_handler-calls bump 10 0 (λ i k stack regs. done k) kernel 0x9000 page_fault
