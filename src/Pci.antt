-- ===== src/Pci.antt =====
-- lib/devs/pci.c: the configuration space of the PCI bus, the devices that are found there, and their
-- names. The tables of names (lib/devs/pci_dev_info.h) come from a public list and are arguments.
pub mod Config
pub mod Names
pub mod Info
mod Tests
use jonix.Base.{
  ℕ, zero, suc, ◌+◌, ◌*◌, ◌/◌, ◌%◌, ◌^◌, Bool, true, false, not, ◌&&◌, Option, none, some, ◌==◌,
  if◌then◌else◌, List, [], ◌∷◌, Ptr, null, bit_or,
}
use jonix.Io.{Ports}
use jonix.Heap.{Outcome, done, panic, out_of_fuel}
use jonix.Util.LinkedList.{Nodes, ListHead, Allocator, list_new, list_add}

abbrev pub pci_config_address : ℕ
pci_config_address = 3320

abbrev pub pci_config_data : ℕ
pci_config_data = 3324

abbrev pub Text : Type 0
Text = List ℕ

pub record PciDev : Type 0 where
  pub bus : ℕ
  pub slot : ℕ
  pub func : ℕ
  pub dev_id : ℕ
  pub name : Text
  pub desc : Text
  pub vendor_id : ℕ
  pub vendor_short : Text
  pub vendor_long : Text
  pub class_id : ℕ
  pub class_desc : Text
  pub subclass_id : ℕ
  pub subclass_desc : Text
  pub revision_id : ℕ
  pub prog_if : ℕ
  pub prog_if_desc : Text
  pub bist : ℕ
  pub header_type : ℕ
  pub latency : ℕ
  pub cache_line_size : ℕ
  pub bar0 : ℕ
  pub bar1 : ℕ
  pub bar2 : ℕ
  pub bar3 : ℕ
  pub bar4 : ℕ
  pub bar5 : ℕ
  pub subsys_id : ℕ
  pub subsys_vendor_id : ℕ
  pub int_pin : ℕ
  pub int_line : ℕ

pub record VendorId : Type 0 where
  pub vendor_id : ℕ
  pub vendor_short : Text
  pub vendor_long : Text

pub record DevId : Type 0 where
  pub vendor_id : ℕ
  pub dev_id : ℕ
  pub name : Text
  pub desc : Text

pub record ClassId : Type 0 where
  pub class_id : ℕ
  pub subclass_id : ℕ
  pub prog_if : ℕ
  pub class_desc : Text
  pub subclass_desc : Text
  pub prog_if_desc : Text

pub record Tables : Type 0 where
  pub vendor_ids : List VendorId
  pub dev_ids : List DevId
  pub class_ids : List ClassId

-- The word for the address port, of the numbers of bus, slot, function and register.
unfoldable pub config_word : ℕ → ℕ → ℕ → ℕ → ℕ
config_word bus slot func reg =
    bit_or (bit_or (bit_or (bit_or (bus * 2 ^ 16) (slot * 2 ^ 11)) (func * 2 ^ 8)) (reg * 2 ^ 2))
      (2 ^ 31)
    % 2 ^ 32

abbrev pub pci_config_read : (P : Ports) → P.State → ℕ → ℕ → ℕ → ℕ → P.State × ℕ
pci_config_read P s bus slot func reg =
    P.inl (P.outl s pci_config_address (config_word bus slot func reg)) pci_config_data

-- The three loops of pci_dev_lookup_ids.
unfoldable pub lookup_vendor : List VendorId → PciDev → PciDev
lookup_vendor [] dev = dev
lookup_vendor (r ∷ rs) dev = lookup_vendor rs (
    if r.vendor_id == dev.vendor_id
    then record dev { vendor_short = r.vendor_short; vendor_long = r.vendor_long }
    else dev)

unfoldable pub lookup_dev : List DevId → PciDev → PciDev
lookup_dev [] dev = dev
lookup_dev (r ∷ rs) dev = lookup_dev rs (
    if (r.dev_id == dev.dev_id) && (r.vendor_id == dev.vendor_id)
    then record dev { name = r.name; desc = r.desc }
    else dev)

-- The test that the first character is not the NUL.
abbrev pub or_text : Text → Text → Text
or_text [] other = other
or_text (c ∷ cs) other = c ∷ cs

-- The body of the third loop; the Boolean says that it breaks.
unfoldable pub class_step : ClassId → PciDev → PciDev × Bool
class_step r dev =
    let with_class : PciDev = record dev { class_desc = or_text dev.class_desc r.class_desc } in
    let with_sub : PciDev = record with_class {
      subclass_desc = or_text dev.subclass_desc r.subclass_desc;
    } in
    if not (r.class_id == dev.class_id)
    then (dev, false)
    else if not (r.subclass_id == dev.subclass_id)
    then (with_class, false)
    else if r.prog_if == dev.prog_if
    then (record with_sub { prog_if_desc = r.prog_if_desc }, true)
    else (with_sub, false)

unfoldable pub lookup_class : List ClassId → PciDev → PciDev
lookup_class [] dev = dev
lookup_class (r ∷ rs) dev =
    let (dev', found) = class_step r dev in
    let rest = lookup_class rs dev' in if found then dev' else rest

unfoldable pub pci_dev_lookup_ids : Tables → PciDev → PciDev
pci_dev_lookup_ids t dev = lookup_class t.class_ids (
    lookup_dev t.dev_ids (
      lookup_vendor t.vendor_ids (record dev {
        class_desc = [];
        subclass_desc = [];
        prog_if_desc = [];
        vendor_short = [];
        vendor_long = [];
        name = [];
        desc = [];
      })))

abbrev pub sizeof_pci_dev : ℕ
sizeof_pci_dev = 88

abbrev pub sizeof_list_head : ℕ
sizeof_list_head = 12

-- What kmalloc returns for a new structure.
abbrev pub zero_dev : PciDev
zero_dev = record {
  bus = 0;
  slot = 0;
  func = 0;
  dev_id = 0;
  name = [];
  desc = [];
  vendor_id = 0;
  vendor_short = [];
  vendor_long = [];
  class_id = 0;
  class_desc = [];
  subclass_id = 0;
  subclass_desc = [];
  revision_id = 0;
  prog_if = 0;
  prog_if_desc = [];
  bist = 0;
  header_type = 0;
  latency = 0;
  cache_line_size = 0;
  bar0 = 0;
  bar1 = 0;
  bar2 = 0;
  bar3 = 0;
  bar4 = 0;
  bar5 = 0;
  subsys_id = 0;
  subsys_vendor_id = 0;
  int_pin = 0;
  int_line = 0;
}

module _ (P : Ports) (A : Allocator) where
  -- The state: the ports, the heap, the nodes of the lists, the devices, and the global lists.
  pub record Pci : Type 0 where
    pub ports : P.State
    pub heap : A.State
    pub nodes : Nodes
    pub devs : Ptr → PciDev
    pub pci_devs : ListHead
    pub ide_ctlrs : ListHead

  -- The registers that every header has. The rest of the structure is 0, as kmalloc leaves it.
  unfoldable pub read_common : P.State → ℕ → ℕ → ℕ → ℕ → PciDev → P.State × PciDev
  read_common s bus slot func ids dev =
      let (s2, class) = pci_config_read P s bus slot func 2 in
      let (s3, misc) = pci_config_read P s2 bus slot func 3 in
      let (s4, bar0) = pci_config_read P s3 bus slot func 4 in
      let (s5, bar1) = pci_config_read P s4 bus slot func 5 in
      (
        s5,
        record dev {
          dev_id = ids / 2 ^ 16;
          vendor_id = ids % 2 ^ 16;
          class_id = class / 2 ^ 24;
          subclass_id = class / 2 ^ 16 % 2 ^ 8;
          prog_if = class / 2 ^ 8 % 2 ^ 8;
          revision_id = class % 2 ^ 8;
          bist = misc / 2 ^ 24;
          header_type = misc / 2 ^ 16 % 2 ^ 7;
          latency = misc / 2 ^ 8 % 2 ^ 8;
          cache_line_size = misc % 2 ^ 8;
          bar0 = bar0;
          bar1 = bar1;
        },
      )

  -- Those of a standard header.
  unfoldable pub read_standard : P.State → ℕ → ℕ → ℕ → PciDev → P.State × PciDev
  read_standard s bus slot func dev =
      let (s6, bar2) = pci_config_read P s bus slot func 6 in
      let (s7, bar3) = pci_config_read P s6 bus slot func 7 in
      let (s8, bar4) = pci_config_read P s7 bus slot func 8 in
      let (s9, bar5) = pci_config_read P s8 bus slot func 9 in
      let (s11, subsys) = pci_config_read P s9 bus slot func 11 in
      let (s15, int) = pci_config_read P s11 bus slot func 15 in
      (
        s15,
        record dev {
          bar2 = bar2;
          bar3 = bar3;
          bar4 = bar4;
          bar5 = bar5;
          subsys_id = subsys / 2 ^ 16;
          subsys_vendor_id = subsys % 2 ^ 16;
          int_pin = int / 2 ^ 8 % 2 ^ 8;
          int_line = int % 2 ^ 8;
        },
      )

  -- The device at an address, or NULL if there is none.
  unfoldable pub pci_dev_get_info : Tables → Pci → ℕ → ℕ → ℕ → Outcome (Pci × Ptr)
  pci_dev_get_info t k bus slot func =
      let (s1, ids) = pci_config_read P k.ports bus slot func 0 in
      let (heap, dev) = A.kmalloc k.heap sizeof_pci_dev in
      let (s2, common) = read_common s1 bus slot func ids zero_dev in
      let (s3, full) =
        if common.header_type == 0 then read_standard s2 bus slot func common else (s2, common) in
      let info = pci_dev_lookup_ids t (record full { bus = bus; slot = slot; func = func }) in
      if ids % 2 ^ 16 == 65535
      then done (record k { ports = s1 }, null)
      else if dev == null
      then panic
      else done (
        record k { ports = s3; heap = heap; devs = λ q. if q == dev then info else k.devs q },
        dev,
      )

  -- The results of list_add are not looked at.
  unfoldable pub pci_found_dev : Pci → Ptr → Pci
  pci_found_dev k dev =
      let (heap, pci_devs, nodes, ok) = list_add A k.heap k.pci_devs k.nodes dev in
      let (heap', ide_ctlrs, nodes', ok') = list_add A heap k.ide_ctlrs nodes dev in
      if ((k.devs dev).class_id == 1) && ((k.devs dev).subclass_id == 1)
      then record k { heap = heap'; nodes = nodes'; pci_devs = pci_devs; ide_ctlrs = ide_ctlrs }
      else record k { heap = heap; nodes = nodes; pci_devs = pci_devs }

  -- The list of the bus: NULL at first, and then where kmalloc puts it. Without memory the list head
  -- is written at NULL, and the pointer stays NULL.
  unfoldable pub bus_add : Pci → Option ListHead → Ptr → Pci × Option ListHead
  bus_add k none dev =
      let (heap, head) = A.kmalloc k.heap sizeof_list_head in
      let (heap', devs, nodes, ok) = list_add A heap list_new k.nodes dev in
      (record k { heap = heap'; nodes = nodes }, if head == null then none else some devs)
  bus_add k (some head) dev =
      let (heap', devs, nodes, ok) = list_add A k.heap head k.nodes dev in
      (record k { heap = heap'; nodes = nodes }, some devs)

  -- What a round does with the result of pci_dev_get_info; `rest` are the functions behind it.
  abbrev pub search_from :
      (Pci → Option ListHead → Outcome (Pci × Option ListHead))
      → Option ListHead
      → Outcome (Pci × Ptr)
      → Outcome (Pci × Option ListHead)
  search_from rest devs (done (k, dev)) =
      let (k', devs') = bus_add (pci_found_dev k dev) devs dev in
      if dev == null then done (k, devs) else rest k' devs'
  search_from rest devs panic = panic
  search_from rest devs out_of_fuel = out_of_fuel

  -- The inner loop of pci_search_bus, with `left` functions to go from `func` on.
  unfoldable pub search_funcs :
      Tables → ℕ → ℕ → ℕ → ℕ → Pci → Option ListHead → Outcome (Pci × Option ListHead)
  search_funcs t bus slot func zero k devs = done (k, devs)
  search_funcs t bus slot func (suc left) k devs =
      search_from (search_funcs t bus slot (func + 1) left) devs
        (pci_dev_get_info t k bus slot func)

  abbrev pub slots_from :
      (Pci → Option ListHead → Outcome (Pci × Option ListHead))
      → Outcome (Pci × Option ListHead)
      → Outcome (Pci × Option ListHead)
  slots_from rest (done (k, devs)) = rest k devs
  slots_from rest panic = panic
  slots_from rest out_of_fuel = out_of_fuel

  -- The outer loop.
  unfoldable pub search_slots :
      Tables → ℕ → ℕ → ℕ → Pci → Option ListHead → Outcome (Pci × Option ListHead)
  search_slots t bus slot zero k devs = done (k, devs)
  search_slots t bus slot (suc left) k devs =
      slots_from (search_slots t bus (slot + 1) left) (search_funcs t bus slot 0 8 k devs)

  abbrev pub pci_search_bus : Tables → Pci → ℕ → Outcome (Pci × Option ListHead)
  pci_search_bus t k bus = search_slots t bus 0 5 k none

  -- pci_init reads the list behind the pointer, NULL too: `none` stands for what lies there.
  abbrev pub pci_init : Tables → Pci → Outcome (Pci × Option ListHead)
  pci_init t k = pci_search_bus t k 0
