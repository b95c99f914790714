-- ===== src/Irq/Timer.antt =====
-- lib/time.c: the set-up of the timer.
use jonix.Base.{ℕ, ◌/◌, ◌%◌, ◌^◌, ◌≡◌, ◌≢◌, [], ◌∷◌, ◌++◌, Ptr, null, arith}
use jonix.Irq.{Handlers, Writes, irq_set_handler, irq_handler, irq_handler-set}

abbrev pub time_pit_0 : ℕ
time_pit_0 = 64

abbrev pub time_pit_comm : ℕ
time_pit_comm = 67

abbrev pub divisor : ℕ
divisor = 1193180 / 1000

-- `handler` is the address of time_irq_handler.
unfoldable pub time_init : Ptr → Handlers → Writes → Handlers × Writes
time_init handler handlers ws = (
  irq_set_handler 0 handler handlers,
  ws ++ (time_pit_comm, 54) ∷ (time_pit_0, divisor % 2 ^ 8) ∷ (time_pit_0, divisor / 2 ^ 8) ∷ [],
)

-- After time_init, the first interrupt runs the handler of the timer.
pub irq_handler-time_init :
    {S : Type 0} (run : Ptr → S → S) (handlers : Handlers) (handler : Ptr) (s : S) (ws ws' : Writes)
    → handler ≢ null
    → irq_handler run (time_init handler handlers ws').0 0 s ws
      ≡ (run handler s, ws ++ (32, 32) ∷ [])
unfolding time_init
irq_handler-time_init run handlers handler s ws ws' real =
    irq_handler-set run handlers 0 handler s ws (omega arith) real
