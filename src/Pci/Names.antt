-- ===== src/Pci/Names.antt =====
-- lib/devs/pci.c: the names that are found in the tables.
use jonix.Base.{ℕ, ◌≡◌, refl, ◌&&◌, ◌==◌, if◌then◌else◌, List, [], ◌∷◌, Bool-cases, inl, inr}
use jonix.Pci.{Text, PciDev, ClassId, VendorId, class_step, lookup_class, lookup_vendor}

-- The description in the first record of this class, subclass and interface, or `other` if there is
-- none.
unfoldable pub first_prog : List ClassId → ℕ → ℕ → ℕ → Text → Text
first_prog [] class sub prog other = other
first_prog (r ∷ rs) class sub prog other =
    let rest = first_prog rs class sub prog other in
    if (r.class_id == class) && ((r.subclass_id == sub) && (r.prog_if == prog))
    then r.prog_if_desc
    else rest

-- The loop over the table of classes finds the description of the interface in the first record
-- that has the class, the subclass and the interface of the device.
pub lookup_class-prog_if_desc :
    (rs : List ClassId) (dev : PciDev)
    → (lookup_class rs dev).prog_if_desc
      ≡ first_prog rs dev.class_id dev.subclass_id dev.prog_if dev.prog_if_desc
unfolding lookup_class class_step first_prog
lookup_class-prog_if_desc [] dev = refl
lookup_class-prog_if_desc (r ∷ rs) dev = elim (Bool-cases (r.class_id == dev.class_id)) [
  | inr e ↦ rw e (lookup_class-prog_if_desc rs dev)
  | inl e ↦ elim (Bool-cases (r.subclass_id == dev.subclass_id)) [
    | inr f ↦ rw (e, f) (lookup_class-prog_if_desc rs _)
    | inl f ↦ elim (Bool-cases (r.prog_if == dev.prog_if)) [
      | inr g ↦ rw (e, f, g) (lookup_class-prog_if_desc rs _)
      | inl g ↦ rw (e, f, g) refl
    ]
  ]
]

-- The vendor's names in the last record of the vendor, or `other`.
unfoldable pub last_vendor : List VendorId → ℕ → Text → Text
last_vendor [] vendor other = other
last_vendor (r ∷ rs) vendor other =
    last_vendor rs vendor (if r.vendor_id == vendor then r.vendor_long else other)

pub lookup_vendor-vendor_long :
    (rs : List VendorId) (dev : PciDev)
    → (lookup_vendor rs dev).vendor_long ≡ last_vendor rs dev.vendor_id dev.vendor_long
unfolding lookup_vendor last_vendor
lookup_vendor-vendor_long [] dev = refl
lookup_vendor-vendor_long (r ∷ rs) dev = elim (Bool-cases (r.vendor_id == dev.vendor_id)) [
  | inl e ↦
      rw (e, lookup_vendor)
        (lookup_vendor-vendor_long rs
          (record dev { vendor_short = r.vendor_short; vendor_long = r.vendor_long }))
  | inr e ↦ rw (e, lookup_vendor) (lookup_vendor-vendor_long rs dev)
]
