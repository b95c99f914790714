-- ===== src/Heap/Place.antt =====
-- lib/heap.c: the structure that heap_place stores in front of the blocks.
use jonix.Base.{
  ◌*◌, ◌%◌, none, ℕ, ◌+◌, ◌<◌, ◌≤◌, ◌≡◌, ◌∙◌, refl, Ptr, Mem, Bool, store8, store8_self, store8_ne,
  load32, load32-store32_self, load32-store32-Apart, load32-store8-Apart, store32_ne, u32_mod,
  arith, sym,
}
use jonix.Util.Sort.{Item}
use jonix.Heap.{
  heap_place, heap_index_size, min_heap_size, HeapT, sizeof_heap, byte_of, write_heap, write_first,
}
use jonix.Util.OArray.{OArray}
use jonix.Heap.Tags.{Outside}

-- The bytes in front of the first block: the structure and the slots of the index.
abbrev pub preamble : ℕ
preamble = sizeof_heap + heap_index_size * 4

-- heap_place refuses a start that is not a page's and a size that leaves less than the smallest heap
-- and a page.
pub heap_place-none :
    (space : ℕ → Item) (cmp start n : ℕ) (rw_flag user : Bool) (m : Mem)
    → ((start % 4096 ≡ 0) → 4096 * n < preamble + 4096 + min_heap_size)
    → heap_place space cmp start n rw_flag user m ≡ none
unfolding heap_place
heap_place-none space cmp start n rw_flag user m bad = ground (arith, bad)

-- Memory holds the structure at `p`, with its fields in their order, and the first slot of the index
-- behind it.
pub record IsHeapT (m : Mem) (p cmp : Ptr) (h : HeapT) : Type 0 where
  pub start : load32 m p ≡ h.start
  pub end : load32 m (p + 4) ≡ h.end
  pub array : load32 m (p + 8) ≡ p + sizeof_heap
  pub comparison : load32 m (p + 12) ≡ cmp
  pub max_size : load32 m (p + 16) ≡ h.index.max_size
  pub size : load32 m (p + 20) ≡ h.index.size
  pub user : m (p + 24) ≡ byte_of h.user
  pub rw_flag : m (p + 25) ≡ byte_of h.rw_flag
  pub first : load32 m (p + sizeof_heap) ≡ h.index.array 0

pub write_heap-Outside :
    (m : Mem) (p cmp : Ptr) (h : HeapT) → Outside p sizeof_heap m (write_heap p cmp h m)
unfolding write_heap
write_heap-Outside m p cmp h q apart =
    store8_ne _ (p + 25) (byte_of h.rw_flag) q (omega (arith, apart))
    ∙ store8_ne _ (p + 24) (byte_of h.user) q (omega (arith, apart))
    ∙ store32_ne _ (p + 4) h.end q (omega (arith, apart))
    ∙ store32_ne _ p h.start q (omega (arith, apart))
    ∙ store32_ne _ (p + 20) h.index.size q (omega (arith, apart))
    ∙ store32_ne _ (p + 16) h.index.max_size q (omega (arith, apart))
    ∙ store32_ne _ (p + 12) cmp q (omega (arith, apart))
    ∙ store32_ne _ (p + 8) (p + sizeof_heap) q (omega (arith, apart))

pub write_first-Outside :
    (m : Mem) (p : Ptr) (h : HeapT) → Outside p (sizeof_heap + 4) m (write_first p h m)
unfolding write_first
write_first-Outside m p h q apart =
    store32_ne _ (p + 20) h.index.size q (omega (arith, apart))
    ∙ store32_ne _ (p + sizeof_heap) (h.index.array 0) q (omega (arith, apart))

load32-Same :
    (m m' : Mem) (a : Ptr) → ((q : Ptr) → a ≤ q → q < a + 4 → m' q ≡ m q) → load32 m' a ≡ load32 m a
unfolding load32
load32-Same m m' a same =
    rw
      (
        same a (omega arith) (omega arith),
        same (a + 1) (omega arith) (omega arith),
        same (a + 2) (omega arith) (omega arith),
        same (a + 3) (omega arith) (omega arith),
      )
      refl

-- Where the values are words: the stores of heap_place, with `m'` between them as it was in the
-- structure, make it.
module _ (m m' : Mem) (p cmp : Ptr) (h : HeapT) (o : OArray)
    (same : (q : Ptr) → q < p + sizeof_heap → m' q ≡ write_heap p cmp h m q) where
  abbrev placed : HeapT
  placed = record h { index = o }

  kept :
      (a : Ptr)
      → p ≤ a
      → a + 4 ≤ p + 20
      → load32 (write_first p placed m') a ≡ load32 (write_heap p cmp h m) a
  unfolding write_first
  kept a low high =
      load32-store32-Apart _ (p + 20) o.size a (omega (arith, low, high))
      ∙ load32-store32-Apart m' (p + sizeof_heap) (o.array 0) a (omega (arith, low, high))
      ∙ load32-Same (write_heap p cmp h m) m' a (λ q lo hi. same q (omega (arith, hi, high)))

  kept_byte :
      (a : Ptr) → p + 24 ≤ a → a < p + 28 → write_first p placed m' a ≡ write_heap p cmp h m a
  unfolding write_first
  kept_byte a low high =
      store32_ne _ (p + 20) o.size a (omega (arith, low))
      ∙ store32_ne m' (p + sizeof_heap) (o.array 0) a (omega (arith, high))
      ∙ same a high

  -- What is behind the words of the structure leaves them.
  word_kept :
      (m1 : Mem) (b c a : ℕ)
      → a + 4 ≤ p + 24
      → load32 (store8 (store8 m1 (p + 24) b) (p + 25) c) a ≡ load32 m1 a
  word_kept m1 b c a high =
      load32-store8-Apart _ (p + 25) c a (omega (arith, high))
      ∙ load32-store8-Apart m1 (p + 24) b a (omega (arith, high))

  pub write_first-IsHeapT :
      h.start < u32_mod
      → h.end < u32_mod
      → p + sizeof_heap < u32_mod
      → cmp < u32_mod
      → h.index.max_size < u32_mod
      → o.max_size ≡ h.index.max_size
      → o.size < u32_mod
      → o.array 0 < u32_mod
      → IsHeapT (write_first p placed m') p cmp placed
  unfolding write_heap write_first
  write_first-IsHeapT start_word end_word p_word cmp_word max_word max_same size_word first_word =
      record {
        start =
            kept p (omega arith) (omega arith)
            ∙ word_kept _ _ _ p (omega arith)
            ∙ load32-store32-Apart _ (p + 4) h.end p (omega arith)
            ∙ load32-store32_self _ p h.start start_word;
        end =
            kept (p + 4) (omega arith) (omega arith)
            ∙ word_kept _ _ _ (p + 4) (omega arith)
            ∙ load32-store32_self _ (p + 4) h.end end_word;
        array =
            kept (p + 8) (omega arith) (omega arith)
            ∙ word_kept _ _ _ (p + 8) (omega arith)
            ∙ load32-store32-Apart _ (p + 4) h.end (p + 8) (omega arith)
            ∙ load32-store32-Apart _ p h.start (p + 8) (omega arith)
            ∙ load32-store32-Apart _ (p + 20) h.index.size (p + 8) (omega arith)
            ∙ load32-store32-Apart _ (p + 16) h.index.max_size (p + 8) (omega arith)
            ∙ load32-store32-Apart _ (p + 12) cmp (p + 8) (omega arith)
            ∙ load32-store32_self _ (p + 8) (p + sizeof_heap) p_word;
        comparison =
            kept (p + 12) (omega arith) (omega arith)
            ∙ word_kept _ _ _ (p + 12) (omega arith)
            ∙ load32-store32-Apart _ (p + 4) h.end (p + 12) (omega arith)
            ∙ load32-store32-Apart _ p h.start (p + 12) (omega arith)
            ∙ load32-store32-Apart _ (p + 20) h.index.size (p + 12) (omega arith)
            ∙ load32-store32-Apart _ (p + 16) h.index.max_size (p + 12) (omega arith)
            ∙ load32-store32_self _ (p + 12) cmp cmp_word;
        max_size =
            kept (p + 16) (omega arith) (omega arith)
            ∙ word_kept _ _ _ (p + 16) (omega arith)
            ∙ load32-store32-Apart _ (p + 4) h.end (p + 16) (omega arith)
            ∙ load32-store32-Apart _ p h.start (p + 16) (omega arith)
            ∙ load32-store32-Apart _ (p + 20) h.index.size (p + 16) (omega arith)
            ∙ load32-store32_self _ (p + 16) h.index.max_size max_word
            ∙ sym max_same;
        size = load32-store32_self _ (p + 20) o.size size_word;
        user =
            kept_byte (p + 24) (omega arith) (omega arith)
            ∙ store8_ne _ (p + 25) (byte_of h.rw_flag) (p + 24) (λ e. omega (arith, e))
            ∙ store8_self _ (p + 24) (byte_of h.user);
        rw_flag =
            kept_byte (p + 25) (omega arith) (omega arith)
            ∙ store8_self _ (p + 25) (byte_of h.rw_flag);
        first =
            load32-store32-Apart _ (p + 20) o.size (p + sizeof_heap) (omega arith)
            ∙ load32-store32_self m' (p + sizeof_heap) (o.array 0) first_word;
      }
