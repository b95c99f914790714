-- ===== src/Base/Words.antt =====
-- 32-bit words of byte-addressed memory, least significant byte first.
use Prim.Native.Nat.{ℕ, ◌+◌, ◌*◌, ◌/◌, ◌%◌, ◌^◌, ◌<◌}
use mathlib.Core.Path.{◌≡◌}
use native.Mathlib.Omega.{arith}
use jonix.Base.Memory.{Ptr, Mem, store8, Apart}

abbrev pub u32_mod : ℕ
u32_mod = 2 ^ 32

unfoldable pub load32 : Mem → Ptr → ℕ
load32 m a = m a + m (a + 1) * 256 + m (a + 2) * 65536 + m (a + 3) * 16777216

unfoldable pub store32 : Mem → Ptr → ℕ → Mem
store32 m a v =
    store8
      (store8 (store8 (store8 m a (v % 256)) (a + 1) (v / 256 % 256)) (a + 2) (v / 65536 % 256))
      (a + 3) (v / 16777216 % 256)

module _ (m : Mem) where
  pub load32-store32_self : (a v : ℕ) → v < u32_mod → load32 (store32 m a v) a ≡ v
  unfolding load32 store32 store8
  load32-store32_self a v h = ground arith

  pub load32-store32-Apart : (a v b : ℕ) → Apart a 4 b 4 → load32 (store32 m a v) b ≡ load32 m b
  unfolding load32 store32 store8
  load32-store32-Apart a v b h = ground arith

  pub load32-store8-Apart : (a v b : ℕ) → Apart a 1 b 4 → load32 (store8 m a v) b ≡ load32 m b
  unfolding load32 store8
  load32-store8-Apart a v b h = ground arith

  pub store32_ne : (a v b : ℕ) → Apart a 4 b 1 → store32 m a v b ≡ m b
  unfolding store32 store8
  store32_ne a v b h = ground arith
