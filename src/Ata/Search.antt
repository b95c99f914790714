-- ===== src/Ata/Search.antt =====
-- lib/devs/ata.c: ata_find_devs on a bus without controllers.
use jonix.Base.{ℕ, ◌+◌, ◌≡◌, refl, none, Bool, true, false, Ptr}
use jonix.Io.{Ports}
use jonix.Heap.{done}
use jonix.Util.LinkedList.{ListHead, Allocator}
use jonix.Ptbl.{Partition}
use jonix.Pci.{PciDev}
use jonix.Ata.{ata_alt_status}
use jonix.Ata.Find.{
  Ata, Ctlrs, find_ctlr, ata_find_devs, ata_base_1, ata_base_2, ata_base_3, ata_base_4,
}

module _ {L : Type 0} (P : Ports) (A : Allocator) (list : L) (add : L → Partition → L × Bool)
    (v2p : ℕ → ℕ) where
  -- The state after the status of the controller at `base` is read.
  abbrev pub polled : Ata P A list add v2p → ℕ → Ata P A list add v2p
  polled k base = record k { ports = (P.inb k.ports (base + ata_alt_status)).0 }

  abbrev pub no_ctlrs : Ctlrs P A list add v2p
  no_ctlrs = record { ctlr0 = none; ctlr1 = none; ctlr2 = none; ctlr3 = none }

  find_ctlr-floating :
      (ide_ctlrs : ListHead) (devs : Ptr → PciDev) (k : Ata P A list add v2p) (base pair : ℕ)
      (second : Bool)
      → ((s : P.State) (port : ℕ) → (P.inb s port).1 ≡ 255)
      → find_ctlr P A list add v2p ide_ctlrs devs k base pair second ≡ done (polled k base, none)
  unfolding find_ctlr
  find_ctlr-floating ide_ctlrs devs k base pair second floating =
      rw (floating k.ports (base + 518)) refl

  -- On a bus where every read gives 0xFF, ata_find_devs finds no controller: it reads the status at
  -- the four bases, in their order, and leaves the heap, the lists and the memory alone.
  pub ata_find_devs-floating :
      (ide_ctlrs : ListHead) (devs : Ptr → PciDev) (k : Ata P A list add v2p)
      → ((s : P.State) (port : ℕ) → (P.inb s port).1 ≡ 255)
      → ata_find_devs P A list add v2p ide_ctlrs devs k
        ≡ done (
          polled (polled (polled (polled k ata_base_1) ata_base_2) ata_base_3) ata_base_4,
          no_ctlrs,
        )
  unfolding ata_find_devs
  ata_find_devs-floating ide_ctlrs devs k floating =
      rw
        (
          find_ctlr-floating ide_ctlrs devs k ata_base_1 0 false floating,
          find_ctlr-floating ide_ctlrs devs (polled k ata_base_1) ata_base_2 0 true floating,
          find_ctlr-floating ide_ctlrs devs (polled (polled k ata_base_1) ata_base_2) ata_base_3 1
              false floating,
          find_ctlr-floating ide_ctlrs devs
              (polled (polled (polled k ata_base_1) ata_base_2) ata_base_3) ata_base_4 1 true
              floating,
        )
        refl
