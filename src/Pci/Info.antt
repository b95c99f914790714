-- ===== src/Pci/Info.antt =====
-- lib/devs/pci.c: what pci_dev_get_info reads of a device.
use jonix.Base.{
  ℕ, ◌/◌, ◌%◌, ◌^◌, ◌≡◌, ◌≢◌, refl, sym, ap, ◌∙◌, true, false, ◌&&◌, ◌==◌, if◌then◌else◌, List, [],
  ◌∷◌, Bool-cases, inl, inr, null, Ptr, eq→==, ne→==,
}
use jonix.Heap.{done}
use jonix.Util.LinkedList.{Allocator}
use jonix.Io.{Ports}
use jonix.Pci.{
  Pci, PciDev, Tables, ClassId, VendorId, DevId, class_step, lookup_class, lookup_dev,
  lookup_vendor, pci_dev_lookup_ids, pci_dev_get_info, read_common, read_standard, config_word,
  sizeof_pci_dev, pci_config_read, zero_dev,
}
use jonix.Pci.Config.{IsConfig}

-- The device without its names.
abbrev pub nameless : PciDev → PciDev
nameless dev = record dev {
  name = [];
  desc = [];
  vendor_short = [];
  vendor_long = [];
  class_desc = [];
  subclass_desc = [];
  prog_if_desc = [];
}

lookup_vendor-nameless :
    (rs : List VendorId) (dev : PciDev) → nameless (lookup_vendor rs dev) ≡ nameless dev
unfolding lookup_vendor
lookup_vendor-nameless [] dev = refl
lookup_vendor-nameless (r ∷ rs) dev =
    lookup_vendor-nameless rs _
    ∙ elim (Bool-cases (r.vendor_id == dev.vendor_id)) [ inl e ↦ rw e refl | inr e ↦ rw e refl ]

lookup_dev-nameless : (rs : List DevId) (dev : PciDev) → nameless (lookup_dev rs dev) ≡ nameless dev
unfolding lookup_dev
lookup_dev-nameless [] dev = refl
lookup_dev-nameless (r ∷ rs) dev =
    lookup_dev-nameless rs _
    ∙ elim (Bool-cases ((r.dev_id == dev.dev_id) && (r.vendor_id == dev.vendor_id))) [
      | inl e ↦ rw e refl
      | inr e ↦ rw e refl
    ]

class_step-nameless : (r : ClassId) (dev : PciDev) → nameless (class_step r dev).0 ≡ nameless dev
unfolding class_step
class_step-nameless r dev = elim (Bool-cases (r.class_id == dev.class_id)) [
  | inr e ↦ rw e refl
  | inl e ↦ elim (Bool-cases (r.subclass_id == dev.subclass_id)) [
    | inr f ↦ rw (e, f) refl
    | inl f ↦ elim (Bool-cases (r.prog_if == dev.prog_if)) [
      | inr g ↦ rw (e, f, g) refl
      | inl g ↦ rw (e, f, g) refl
    ]
  ]
]

lookup_class-nameless :
    (rs : List ClassId) (dev : PciDev) → nameless (lookup_class rs dev) ≡ nameless dev
unfolding lookup_class
lookup_class-nameless [] dev = refl
lookup_class-nameless (r ∷ rs) dev = elim (Bool-cases (class_step r dev).1) [
  | inl e ↦ rw e (class_step-nameless r dev)
  | inr e ↦ rw e (lookup_class-nameless rs (class_step r dev).0 ∙ class_step-nameless r dev)
]

-- The look-up of the names changes nothing else.
pub pci_dev_lookup_ids-nameless :
    (t : Tables) (dev : PciDev) → nameless (pci_dev_lookup_ids t dev) ≡ nameless dev
unfolding pci_dev_lookup_ids
pci_dev_lookup_ids-nameless t dev =
    lookup_class-nameless t.class_ids _
    ∙ lookup_dev-nameless t.dev_ids _
    ∙ lookup_vendor-nameless t.vendor_ids _

-- A standard device without names, from the registers of its header.
abbrev pub standard_dev : (ℕ → ℕ) → ℕ → ℕ → ℕ → PciDev
standard_dev reg bus slot func = record {
  bus = bus;
  slot = slot;
  func = func;
  dev_id = reg 0 / 2 ^ 16;
  vendor_id = reg 0 % 2 ^ 16;
  class_id = reg 2 / 2 ^ 24;
  subclass_id = reg 2 / 2 ^ 16 % 2 ^ 8;
  prog_if = reg 2 / 2 ^ 8 % 2 ^ 8;
  revision_id = reg 2 % 2 ^ 8;
  bist = reg 3 / 2 ^ 24;
  header_type = reg 3 / 2 ^ 16 % 2 ^ 7;
  latency = reg 3 / 2 ^ 8 % 2 ^ 8;
  cache_line_size = reg 3 % 2 ^ 8;
  bar0 = reg 4;
  bar1 = reg 5;
  bar2 = reg 6;
  bar3 = reg 7;
  bar4 = reg 8;
  bar5 = reg 9;
  subsys_id = reg 11 / 2 ^ 16;
  subsys_vendor_id = reg 11 % 2 ^ 16;
  int_pin = reg 15 / 2 ^ 8 % 2 ^ 8;
  int_line = reg 15 % 2 ^ 8;
  name = [];
  desc = [];
  vendor_short = [];
  vendor_long = [];
  class_desc = [];
  subclass_desc = [];
  prog_if_desc = [];
}

module _ (P : Ports) (A : Allocator) (t : Tables) (word : ℕ → ℕ) (c : IsConfig P word)
    (bus slot func : ℕ) where
  abbrev reg : ℕ → ℕ
  reg r = word (config_word bus slot func r)

  common_header :
      (s : P.State) (ids : ℕ) (dev : PciDev)
      → (read_common P A s bus slot func ids dev).1.header_type ≡ reg 3 / 2 ^ 16 % 2 ^ 7
  unfolding read_common
  common_header s ids dev = simp c.read refl

  standard-nameless :
      (s s' : P.State) (dev : PciDev)
      → nameless
          (record (read_standard P A s' bus slot func
            (read_common P A s bus slot func (reg 0) dev).1).1 {
              bus = bus;
              slot = slot;
              func = func;
            })
        ≡ standard_dev reg bus slot func
  unfolding read_common read_standard
  standard-nameless s s' dev = simp c.read refl

  module _ (k : Pci P A) (real : (A.kmalloc k.heap sizeof_pci_dev).1 ≢ null)
      (there : reg 0 % 2 ^ 16 ≢ 65535) (standard : reg 3 / 2 ^ 16 % 2 ^ 7 ≡ 0) where
    abbrev dev : Ptr
    dev = (A.kmalloc k.heap sizeof_pci_dev).1

    abbrev asked : P.State × ℕ
    asked = pci_config_read P k.ports bus slot func 0

    abbrev common : P.State × PciDev
    common = read_common P A asked.0 bus slot func asked.1 zero_dev

    abbrev full : P.State × PciDev
    full = read_standard P A common.0 bus slot func common.1

    abbrev info : PciDev
    info = pci_dev_lookup_ids t (record full.1 { bus = bus; slot = slot; func = func })

    abbrev found : Pci P A
    found = record k {
      ports = full.0;
      heap = (A.kmalloc k.heap sizeof_pci_dev).0;
      devs = λ q. if q == dev then info else k.devs q;
    }

    found-run : pci_dev_get_info P A t k bus slot func ≡ done (found, dev)
    unfolding pci_dev_get_info
    found-run =
        let vendor : (asked.1 % 2 ^ 16 == 65535) ≡ false = ne→== _ 65535 (λ e.
          there (ap (λ w. w % 2 ^ 16) (sym (c.read k.ports (config_word bus slot func 0))) ∙ e)) in
        let header : (common.1.header_type == 0) ≡ true =
          eq→== _ 0 (common_header asked.0 asked.1 zero_dev ∙ standard) in
        rw (vendor, ne→== dev null real, header) refl

    info-nameless : nameless info ≡ standard_dev reg bus slot func
    info-nameless =
        pci_dev_lookup_ids-nameless t (record full.1 { bus = bus; slot = slot; func = func })
        ∙ ap
            (λ ids.
              nameless
                (record (read_standard P A common.0 bus slot func
                  (read_common P A asked.0 bus slot func ids zero_dev).1).1 {
                    bus = bus;
                    slot = slot;
                    func = func;
                  }))
            (c.read k.ports (config_word bus slot func 0))
        ∙ standard-nameless asked.0 common.0 zero_dev

    -- Where a device with a standard header answers and there is memory, pci_dev_get_info returns a
    -- new structure with bus, slot, function and the fields that the registers of the header hold;
    -- other structures are as they were.
    pub pci_dev_get_info-standard :
        (k' : Pci P A) × (pci_dev_get_info P A t k bus slot func ≡ done (k', dev))
        × (nameless (k'.devs dev) ≡ standard_dev reg bus slot func)
        × ((q : Ptr) → q ≢ dev → k'.devs q ≡ k.devs q)
    pci_dev_get_info-standard = (
      found,
      found-run,
      rw (eq→== dev dev refl) info-nameless,
      λ q other. rw (ne→== q dev other) refl,
    )
