-- ===== src/Base/Memory.antt =====
-- Byte-addressed memory. A pointer is a number; its arithmetic does not wrap, since C leaves a
-- pointer that leaves the address space undefined.
use Prim.Native.Nat.{ℕ, ◌+◌, ◌≤◌}
use mathlib.Core.Path.{◌≡◌}
use mathlib.Core.Logic.{◌≢◌, ◌⊎◌}
use mathlib.Core.Bool.{Bool, ◌&&◌}
use native.Mathlib.Omega.{arith}
use jonix.Base.Tests.{ltb, leb, ◌==◌, if◌then◌else◌}

abbrev pub Ptr : Type 0
Ptr = ℕ

abbrev pub null : Ptr
null = 0

abbrev pub Mem : Type 0
Mem = Ptr → ℕ

-- Writes one byte.
unfoldable pub store8 : Mem → Ptr → ℕ → Mem
store8 m p v a = if a == p then v else m a

-- The address lies in the `n` bytes from `p`.
abbrev pub in_range : Ptr → ℕ → Ptr → Bool
in_range p n a = leb p a && ltb a (p + n)

-- The `n` bytes from `p` and the `k` bytes from `q` have no byte in common.
abbrev pub Apart : Ptr → ℕ → Ptr → ℕ → Type 0
Apart p n q k = (p + n ≤ q) ⊎ (q + k ≤ p)

pub store8_self : (m : Mem) (p v : ℕ) → store8 m p v p ≡ v
unfolding store8
store8_self m p v = ground arith

pub store8_ne : (m : Mem) (p v a : ℕ) → a ≢ p → store8 m p v a ≡ m a
unfolding store8
store8_ne m p v a h = ground arith
