-- ===== src/Io.antt =====
-- lib/io.c: the ports of the processor. Each function is one instruction, so the ports and the devices
-- behind them are an interface.
use jonix.Base.{ℕ}

pub record Ports : Type 1 where
  pub State : Type 0
  pub inb : State → ℕ → State × ℕ
  pub outb : State → ℕ → ℕ → State
  pub inw : State → ℕ → State × ℕ
  pub outl : State → ℕ → ℕ → State
  pub inl : State → ℕ → State × ℕ
