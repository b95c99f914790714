-- ===== src/Pci/Config.antt =====
-- lib/devs/pci.c: the address of a register, and a bus without devices.
use jonix.Base.{
  true, ℕ, zero, suc, ◌+◌, ◌*◌, ◌/◌, ◌%◌, ◌^◌, ◌<◌, ◌≡◌, refl, ap, ◌∙◌, Option, none, bit_or, arith,
  ◌==◌, null, eq→==,
}
use jonix.Base.Bits.{shl, pow2, bit_or-shl, bit_or-below}
use jonix.Heap.{done}
use jonix.Util.LinkedList.{Allocator, ListHead}
use jonix.Io.{Ports}
use jonix.Pci.{
  Pci, Tables, config_word, pci_config_address, pci_config_data, pci_config_read, pci_dev_get_info,
  search_funcs, search_from, search_slots, slots_from, pci_search_bus,
}

or_sum : (k x c b : ℕ) → x ≡ shl k c → b < pow2 k → bit_or x b ≡ x + b
or_sum k x c b e lt = rw e (bit_or-shl k c b lt)

or_top : (k x c b : ℕ) → x ≡ shl k c → b < pow2 k → bit_or b x ≡ b + x
or_top k x c b e lt = rw e (bit_or-below k b c lt)

-- The numbers do not overlap in the word, which begins with the enable bit.
pub config_word-sum :
    (bus slot func reg : ℕ)
    → bus < 256
    → slot < 32
    → func < 8
    → reg < 64
    → config_word bus slot func reg
      ≡ 2 ^ 31 + bus * 2 ^ 16 + slot * 2 ^ 11 + func * 2 ^ 8 + reg * 2 ^ 2
unfolding config_word
config_word-sum bus slot func reg b s f r =
    let one = or_sum 16 (bus * 2 ^ 16) bus (slot * 2 ^ 11) (omega arith) (omega (arith, s)) in
    let two =
      or_sum 11 (bus * 2 ^ 16 + slot * 2 ^ 11) (bus * 32 + slot) (func * 2 ^ 8) (omega arith)
        (omega (arith, f)) in
    let three =
      or_sum 8 (bus * 2 ^ 16 + slot * 2 ^ 11 + func * 2 ^ 8) (bus * 256 + slot * 8 + func)
        (reg * 2 ^ 2) (omega arith) (omega (arith, r)) in
    let four =
      or_top 31 (2 ^ 31) 1 (bus * 2 ^ 16 + slot * 2 ^ 11 + func * 2 ^ 8 + reg * 2 ^ 2) (omega arith)
        (omega (arith, b, s, f, r)) in
    rw (one, two, three, four) (omega (arith, b, s, f, r))

-- Where the processor reads the same word at the same address whenever it asks.
pub record IsConfig (P : Ports) (word : ℕ → ℕ) : Type 0 where
  pub read :
      (s : P.State) (a : ℕ) → (P.inl (P.outl s pci_config_address a) pci_config_data).1 ≡ word a

-- The word that pci_config_read writes to the address port has the enable bit set, and bus, slot,
-- function and register can be read from it, in the ranges of their fields.
pub config_word-fields :
    (bus slot func reg : ℕ)
    → bus < 256
    → slot < 32
    → func < 8
    → reg < 64
    → (config_word bus slot func reg / 2 ^ 31 ≡ 1)
      × (config_word bus slot func reg / 2 ^ 16 % 256 ≡ bus)
      × (config_word bus slot func reg / 2 ^ 11 % 32 ≡ slot)
      × (config_word bus slot func reg / 2 ^ 8 % 8 ≡ func)
      × (config_word bus slot func reg / 2 ^ 2 % 64 ≡ reg)
config_word-fields bus slot func reg b s f r =
    let e = config_word-sum bus slot func reg b s f r in
    (
      omega (arith, e, b, s, f, r),
      omega (arith, e, b, s, f, r),
      omega (arith, e, b, s, f, r),
      omega (arith, e, b, s, f, r),
      omega (arith, e, b, s, f, r),
    )

module _ (P : Ports) (A : Allocator) (t : Tables) (word : ℕ → ℕ) (c : IsConfig P word)
    (bus : ℕ) where
  abbrev asked : Pci P A → ℕ → Pci P A
  asked k slot = record k { ports = (pci_config_read P k.ports bus slot 0 0).0 }

  no_device :
      (k : Pci P A) (slot : ℕ)
      → word (config_word bus slot 0 0) % 2 ^ 16 ≡ 65535
      → pci_dev_get_info P A t k bus slot 0 ≡ done (asked k slot, null)
  unfolding pci_dev_get_info
  no_device k slot e =
      let vendor : ((pci_config_read P k.ports bus slot 0 0).1 % 2 ^ 16 == 65535) ≡ true =
        eq→== _ 65535 (ap (λ w. w % 2 ^ 16) (c.read k.ports (config_word bus slot 0 0)) ∙ e) in
      rw vendor refl

  no_functions :
      (k : Pci P A) (slot : ℕ) (devs : Option ListHead)
      → word (config_word bus slot 0 0) % 2 ^ 16 ≡ 65535
      → search_funcs P A t bus slot 0 8 k devs ≡ done (asked k slot, devs)
  unfolding search_funcs
  no_functions k slot devs e =
      ap (search_from P A (search_funcs P A t bus slot 1 7) devs) (no_device k slot e)

  -- The search of slots without a device at their function 0 finds nothing and allocates nothing.
  no_slots :
      (left slot : ℕ) (k : Pci P A) (devs : Option ListHead)
      → ((i : ℕ) → i < slot + left → word (config_word bus i 0 0) % 2 ^ 16 ≡ 65535)
      → (s : P.State) × (search_slots P A t bus slot left k devs
          ≡ done (record k { ports = s }, devs))
  unfolding search_slots
  no_slots zero slot k devs e = (k.ports, refl)
  no_slots (suc left) slot k devs e =
      let (s, later) =
        no_slots left (slot + 1) (asked k slot) devs (λ i lt. e i (omega (arith, lt))) in
      (
        s,
        ap (slots_from P A (search_slots P A t bus (slot + 1) left))
              (no_functions k slot devs (e slot (omega arith)))
            ∙ later,
      )

  -- On a bus whose first five slots have no device at their function 0, pci_search_bus returns
  -- NULL, and neither allocates nor changes a list.
  pub pci_search_bus-none :
      (k : Pci P A)
      → ((slot : ℕ) → slot < 5 → word (config_word bus slot 0 0) % 2 ^ 16 ≡ 65535)
      → (s : P.State) × (pci_search_bus P A t k bus ≡ done (record k { ports = s }, none))
  pci_search_bus-none k e = no_slots 5 0 k none (λ i lt. e i (omega (arith, lt)))
