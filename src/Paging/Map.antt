-- ===== src/Paging/Map.antt =====
-- lib/mem.c: pmap, and the translation of the addresses that it maps.
use jonix.Base.{
  ℕ, ◌+◌, ◌%◌, ◌≡◌, ◌≢◌, ◌<◌, inl, inr, refl, Ptr, Bool, true, false, ◌==◌, arith, Bool-cases,
  ne→==,
}
use jonix.Paging.{
  Paging, pmap, with_table, pmap_entry, addr_v2p, store_word, pt_entry, pd_entry, present, flags_of,
  pt_index, pd_index,
}

-- What pmap_entry reports as done is in the entry.
pmap_entry-word :
    (p : Paging) (phys virt flags : ℕ)
    → (pmap_entry p phys virt flags).1 ≡ true
    → (pmap_entry p phys virt flags).0.word (pt_entry virt) ≡ phys + flags
unfolding pmap_entry
pmap_entry-word p phys virt flags = elim (Bool-cases (present (p.word (pt_entry virt)))) [
  | inl there ↦ rw there (λ no. absurd (cc))
  | inr free ↦ rw free (λ ok. ground arith)
]

-- If pmap returns 1, both addresses are those of pages, and the entry of the page's table is the
-- physical address with the flags.
pub pmap-word :
    (p : Paging) (phys virt : ℕ) (rw_flag user : Bool)
    → (pmap p phys virt rw_flag user).1 ≡ true
    → (phys % 4096 ≡ 0)
      × (virt % 4096 ≡ 0)
      × ((pmap p phys virt rw_flag user).0.word (pt_entry virt) ≡ phys + flags_of rw_flag user)
unfolding pmap
pmap-word p phys virt rw_flag user = elim (Bool-cases (phys % 4096 == 0)) [
  | inr odd ↦ rw odd (λ no. absurd cc)
  | inl even ↦ elim (Bool-cases (virt % 4096 == 0)) [
    | inr odd ↦ rw (even, odd) (λ no. absurd cc)
    | inl page ↦
        let t = with_table p virt (flags_of rw_flag user) in
        elim (Bool-cases t.1) [
          | inr none_left ↦ rw (even, page, none_left) (λ no. absurd cc)
          | inl ready ↦
              rw (even, page, ready)
                (λ ok. (
                  ground (arith, even),
                  ground (arith, page),
                  pmap_entry-word t.0 phys virt (flags_of rw_flag user) ok,
                ))
        ]
  ]
]

-- The address that pmap has mapped translates to the physical page, with the offset in the page.
pub addr_v2p-pmap :
    (p : Paging) (phys virt off : ℕ) (rw_flag user : Bool)
    → (pmap p phys virt rw_flag user).1 ≡ true
    → off < 4096
    → addr_v2p (pmap p phys virt rw_flag user).0 (virt + off) ≡ phys + off
unfolding addr_v2p
addr_v2p-pmap p phys virt off rw_flag user ok small =
    let (even, page, word) = pmap-word p phys virt rw_flag user ok in
    let dir : pd_index (virt + off) ≡ pd_index virt = omega (arith, page) in
    let table : pt_index (virt + off) ≡ pt_index virt = omega (arith, page) in
    let entry : pt_entry (virt + off) ≡ pt_entry virt = rw (dir, table) refl in
    let flags : flags_of rw_flag user < 4096 = ground arith in
    rw (entry, word) (omega (arith, even, page, flags))

-- A page that is mapped already is not mapped again, and nothing changes.
pub pmap-present :
    (p : Paging) (phys virt : ℕ) (rw_flag user : Bool)
    → present (p.word (pd_entry virt)) ≡ true
    → present (p.word (pt_entry virt)) ≡ true
    → pmap p phys virt rw_flag user ≡ (p, false)
unfolding pmap with_table pmap_entry
pmap-present p phys virt rw_flag user table there =
    rw (table, there)
      (elim (Bool-cases (phys % 4096 == 0)) [
        | inl e ↦
            rw e (elim (Bool-cases (virt % 4096 == 0)) [ inl v ↦ rw v refl | inr v ↦ rw v refl ])
        | inr e ↦ rw e refl
      ])

-- Where the page table is there, pmap writes no word but the entry of the page.
pub pmap-frame :
    (p : Paging) (phys virt : ℕ) (rw_flag user : Bool) (q : Ptr)
    → present (p.word (pd_entry virt)) ≡ true
    → q ≢ pt_entry virt
    → (pmap p phys virt rw_flag user).0.word q ≡ p.word q
unfolding pmap with_table pmap_entry
pmap-frame p phys virt rw_flag user q table other = rw table (ground (arith, store_ne))
  where
    store_ne : store_word p.word (pt_entry virt) (phys + flags_of rw_flag user) q ≡ p.word q
    store_ne = rw (ne→== q (pt_entry virt) other) refl
