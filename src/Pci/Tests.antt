-- ===== src/Pci/Tests.antt =====
-- lib/devs/pci.c on a bus that reads as all ones, and at a small table of names.
use jonix.Base.{◌≢◌, Ptr, ℕ, ◌+◌, ◌-◌, ◌/◌, ◌%◌, ◌^◌, ◌≡◌, refl, none, List, [], ◌∷◌, arith}
use jonix.Heap.{done}
use jonix.Util.LinkedList.{Allocator, list_new}
use jonix.Io.{Ports}
use jonix.Pci.{
  Pci, PciDev, Tables, ClassId, config_word, lookup_class, pci_search_bus, pci_dev_get_info,
}
use jonix.Pci.Config.{IsConfig, config_word-fields, pci_search_bus-none}
use jonix.Pci.Info.{nameless, standard_dev, pci_dev_get_info-standard}
use jonix.Pci.Names.{first_prog, lookup_class-prog_if_desc}

abbrev all_ones : Ports
all_ones = record {
  State = ℕ;
  inb = λ s port. (s, 255);
  outb = λ s port v. s;
  inw = λ s port. (s, 65535);
  outl = λ s port word. word;
  inl = λ s port. (s, 2 ^ 32 - 1);
}

abbrev no_heap : Allocator
no_heap = record { State = ℕ; kmalloc = λ s n. (s, 0); kfree = λ s p. s }

abbrev no_names : Tables
no_names = record { vendor_ids = []; dev_ids = []; class_ids = [] }

abbrev device : PciDev
device = record {
  bus = 0;
  slot = 1;
  func = 1;
  dev_id = 28688;
  name = [];
  desc = [];
  vendor_id = 32902;
  vendor_short = [];
  vendor_long = [];
  class_id = 1;
  class_desc = [];
  subclass_id = 1;
  subclass_desc = [];
  revision_id = 0;
  prog_if = 128;
  prog_if_desc = [];
  bist = 0;
  header_type = 0;
  latency = 0;
  cache_line_size = 0;
  bar0 = 0;
  bar1 = 0;
  bar2 = 0;
  bar3 = 0;
  bar4 = 0;
  bar5 = 0;
  subsys_id = 0;
  subsys_vendor_id = 0;
  int_pin = 0;
  int_line = 0;
}

abbrev no_devices : Pci all_ones no_heap
no_devices = record {
  ports = 0;
  heap = 0;
  nodes = λ p. record { value = 0; next = 0; prev = 0 };
  devs = λ p. device;
  pci_devs = list_new;
  ide_ctlrs = list_new;
}

abbrev classes : List ClassId
classes =
    record {
      class_id = 1;
      subclass_id = 0;
      prog_if = 0;
      class_desc = 77 ∷ [];
      subclass_desc = 83 ∷ [];
      prog_if_desc = [];
    }
    ∷ record {
      class_id = 1;
      subclass_id = 1;
      prog_if = 128;
      class_desc = 77 ∷ [];
      subclass_desc = 73 ∷ [];
      prog_if_desc = 66 ∷ [];
    }
    ∷ []

config_word-fields_example :
    (config_word 2 3 1 4 / 2 ^ 31 ≡ 1)
    × (config_word 2 3 1 4 / 2 ^ 16 % 256 ≡ 2)
    × (config_word 2 3 1 4 / 2 ^ 11 % 32 ≡ 3)
    × (config_word 2 3 1 4 / 2 ^ 8 % 8 ≡ 1)
    × (config_word 2 3 1 4 / 2 ^ 2 % 64 ≡ 4)
config_word-fields_example =
    config_word-fields 2 3 1 4 (omega arith) (omega arith) (omega arith) (omega arith)

all_ones-IsConfig : IsConfig all_ones (λ a. 2 ^ 32 - 1)
all_ones-IsConfig = record { read = λ s a. refl }

pci_search_bus-none_example :
    (s : ℕ) × (pci_search_bus all_ones no_heap no_names no_devices 0
      ≡ done (record no_devices { ports = s }, none))
pci_search_bus-none_example =
    pci_search_bus-none all_ones no_heap no_names (λ a. 2 ^ 32 - 1) all_ones-IsConfig 0 no_devices
      (λ slot lt. refl)

lookup_class-prog_if_desc_example :
    (lookup_class classes device).prog_if_desc ≡ first_prog classes 1 1 128 []
lookup_class-prog_if_desc_example = lookup_class-prog_if_desc classes device

-- Ports that answer with the low byte of the address, and an allocator.
abbrev low_bytes : Ports
low_bytes = record {
  State = ℕ;
  inb = λ s port. (s, 255);
  outb = λ s port v. s;
  inw = λ s port. (s, 65535);
  outl = λ s port word. word;
  inl = λ s port. (s, s % 2 ^ 8);
}

abbrev some_heap : Allocator
some_heap = record { State = ℕ; kmalloc = λ s n. (s + 16, s + 16); kfree = λ s p. s }

abbrev one_device : Pci low_bytes some_heap
one_device = record {
  ports = 0;
  heap = 0;
  nodes = λ p. record { value = 0; next = 0; prev = 0 };
  devs = λ p. device;
  pci_devs = list_new;
  ide_ctlrs = list_new;
}

pci_dev_get_info-standard_example :
    (k' : Pci low_bytes some_heap) × (pci_dev_get_info low_bytes some_heap no_names one_device 0 1 0
      ≡ done (k', 16))
    × (nameless (k'.devs 16) ≡ standard_dev (λ r. config_word 0 1 0 r % 2 ^ 8) 0 1 0)
    × ((q : Ptr) → q ≢ 16 → k'.devs q ≡ device)
pci_dev_get_info-standard_example =
    pci_dev_get_info-standard low_bytes some_heap no_names (λ a. a % 2 ^ 8)
      (record { read = λ s a. refl }) 0 1 0 one_device (λ e. omega (arith, e))
      (λ e. omega (arith, e)) (omega arith)
