-- ===== src/Paging/Boot/Identity.antt =====
-- lib/mem.c: where the processor finds a page by the tables that mem_init makes.
use mathlib.Core.Path.{subst}
use native.Mathlib.Decide.{ℕ_discrete}
use jonix.Base.{
  ℕ, zero, suc, ◌+◌, ◌-◌, ◌*◌, ◌/◌, ◌%◌, ◌≤◌, ◌<◌, ◌≡◌, ◌≢◌, refl, ap, ◌∙◌, sym, ◌==◌,
  if◌then◌else◌, Ptr, arith, Bool-cases, inl, inr, ne→==, eq→==,
}
use jonix.Paging.{PageStack, store_word}
use jonix.Paging.Boot.{Build, next_table, map_entry, map_pages}

abbrev pub frame : ℕ → ℕ
frame entry = entry - entry % 4096

pub store_other : (f : Ptr → ℕ) (p v q : ℕ) → q ≢ p → store_word f p v q ≡ f q
store_other f p v q ne = rw (ne→== q p ne) refl

pub store_same : (f : Ptr → ℕ) (p v q : ℕ) → q ≡ p → store_word f p v q ≡ v
store_same f p v q e = rw (eq→== q p e) refl

-- The pages on a stack: `n` pages, whole and each there once, the first on top.
pub record IsPages (n : ℕ) (s : PageStack) (page : ℕ → ℕ) : Type 0 where
  pub slot : (k : ℕ) → k < n → s.slot (s.ptr + 4 * k) ≡ page k
  pub whole : (k : ℕ) → k < n → page k % 4096 ≡ 0
  pub once : (k l : ℕ) → k < n → l < n → page k ≡ page l → k ≡ l

module _ (n : ℕ) (s0 : PageStack) (page : ℕ → ℕ) (pages : IsPages n s0 page) where
  -- Words of two pages are apart.
  pub words_apart :
      (k l x y : ℕ) → k < n → l < n → k ≢ l → x < 1024 → y < 1024 → page k + 4 * x ≢ page l + 4 * y
  words_apart k l x y lt lt' ne small small' e =
      ne (
        pages.once k l lt lt'
          (omega (arith, pages.whole k lt, pages.whole l lt', small, small', e)))

  -- The first `m` pages are mapped to `target`, and every table that is begun below page `low` is present.
  pub record Mapped (low : ℕ) (target : ℕ → ℕ) (m : ℕ) (b : Build) : Type 0 where
    pub dir : b.dir ≡ page 0
    pub ptr : b.ms1.ptr ≡ s0.ptr + 4 * (b.dir_ind + 1)
    pub slot : b.ms1.slot ≡ s0.slot
    pub pt : b.pt ≡ page b.dir_ind
    pub count : 1024 * b.dir_ind + b.j ≡ m + 1024
    pub small : b.j ≤ 1024
    pub begun : 1 ≤ b.dir_ind
    pub tables : (k : ℕ) → k < b.dir_ind → frame (b.word (page 0 + 4 * k)) ≡ page (k + 1)
    pub presents : (k : ℕ) → k < b.dir_ind → 1024 * k < low → b.word (page 0 + 4 * k) % 2 ≡ 1
    pub entries : (q : ℕ) → q < m → b.word (page (q / 1024 + 1) + 4 * (q % 1024)) ≡ target q + 3

  -- The entry of a page that is mapped is not the next one.
  entries_apart :
      (ind j m q : ℕ)
      → 1024 * ind + j ≡ m + 1024
      → j < 1024
      → ind < n
      → q < m
      → page (q / 1024 + 1) + 4 * (q % 1024) ≢ page ind + 4 * j
  entries_apart ind j m q count room lt qt = elim (ℕ_discrete (q / 1024 + 1) ind) [
    | yes e ↦ λ same.
        let here : page (q / 1024 + 1) ≡ page ind = ap page e in
        absurd (omega (arith, count, qt, e, here, same))
    | no ne ↦
        words_apart (q / 1024 + 1) ind (q % 1024) j (omega (arith, count, qt, lt, room)) lt ne
          (omega arith) room
  ]

  module _ (low : ℕ) (target : ℕ → ℕ) (m : ℕ) (b : Build) (inv : Mapped low target m b)
      (lt : b.dir_ind < n) (few : b.dir_ind ≤ 1023) where
    dir_kept :
        (k v : ℕ)
        → b.j < 1024
        → k < 1024
        → store_word b.word (b.pt + 4 * b.j) v (page 0 + 4 * k) ≡ b.word (page 0 + 4 * k)
    dir_kept k v room kt =
        let other : 0 ≢ b.dir_ind = λ e. absurd (omega (arith, e, inv.begun)) in
        let apart = words_apart 0 b.dir_ind k b.j (omega (arith, lt)) lt other kt room in
        store_other b.word (b.pt + 4 * b.j) v (page 0 + 4 * k) (rw inv.pt apart)

    map_entry-Mapped :
        (base i : ℕ)
        → b.j < 1024
        → base + 4096 * i ≡ target m
        → Mapped low target (m + 1) (map_entry base i b)
    unfolding map_entry
    map_entry-Mapped base i room e = record {
      dir = inv.dir;
      ptr = inv.ptr;
      slot = inv.slot;
      pt = inv.pt;
      count = omega (arith, inv.count);
      small = omega (arith, room);
      begun = inv.begun;
      tables = λ k kt. ap frame (dir_kept k _ room (omega (arith, kt, few))) ∙ inv.tables k kt;
      presents = λ k kt kl.
          ap (λ (w : ℕ). w % 2) (dir_kept k _ room (omega (arith, kt, few))) ∙ inv.presents k kt kl;
      entries = λ q qt. elim (ℕ_discrete q m) [
        | yes is ↦
            let table : q / 1024 + 1 ≡ b.dir_ind = omega (arith, is, inv.count, room) in
            let place : q % 1024 ≡ b.j = omega (arith, is, inv.count, room) in
            let here : page (q / 1024 + 1) + 4 * (q % 1024) ≡ b.pt + 4 * b.j =
              rw (table, place) (rw inv.pt refl) in
            store_same b.word (b.pt + 4 * b.j) _ _ here
            ∙ ap (λ (x : ℕ). x + 3) e
            ∙ ap (λ (x : ℕ). target x + 3) (sym is)
        | no ne ↦
            let apart = entries_apart b.dir_ind b.j m q inv.count room lt (omega (arith, qt, ne)) in
            store_other b.word (b.pt + 4 * b.j) _ _ (rw inv.pt apart)
            ∙ inv.entries q (omega (arith, qt, ne))
      ];
    }

    module _ (flags : ℕ) (full : b.j ≡ 1024) (next : b.dir_ind + 1 < n) (room : b.dir_ind ≤ 1022)
        (bits : flags < 4096) (on : m < low → flags % 2 ≡ 1) where
      abbrev new_word : Ptr → ℕ
      new_word = store_word b.word (b.dir + 4 * b.dir_ind) (b.ms1.slot b.ms1.ptr + flags)

      popped : b.ms1.slot b.ms1.ptr ≡ page (b.dir_ind + 1)
      popped = rw (inv.slot, inv.ptr) (pages.slot (b.dir_ind + 1) next)

      new_entry : new_word (page 0 + 4 * b.dir_ind) ≡ page (b.dir_ind + 1) + flags
      new_entry =
          store_same b.word (b.dir + 4 * b.dir_ind) _ (page 0 + 4 * b.dir_ind) (rw inv.dir refl)
          ∙ ap (λ (x : ℕ). x + flags) popped

      framed : frame (page (b.dir_ind + 1) + flags) ≡ page (b.dir_ind + 1)
      framed = omega (arith, bits, pages.whole (b.dir_ind + 1) next)

      old_entry : (k : ℕ) → k ≢ b.dir_ind → new_word (page 0 + 4 * k) ≡ b.word (page 0 + 4 * k)
      old_entry k ne =
          let apart : page 0 + 4 * k ≢ page 0 + 4 * b.dir_ind = λ e. ne (omega (arith, e)) in
          store_other b.word (b.dir + 4 * b.dir_ind) _ (page 0 + 4 * k) (rw inv.dir apart)

      old_page :
          (q : ℕ)
          → q < m
          → new_word (page (q / 1024 + 1) + 4 * (q % 1024))
            ≡ b.word (page (q / 1024 + 1) + 4 * (q % 1024))
      old_page q qt =
          let other : q / 1024 + 1 ≢ 0 = λ e. absurd (omega (arith, e)) in
          let apart =
            words_apart (q / 1024 + 1) 0 (q % 1024) b.dir_ind
              (omega (arith, qt, inv.count, full, next)) (omega (arith, next)) other (omega arith)
              (omega (arith, room)) in
          store_other b.word (b.dir + 4 * b.dir_ind) _ _ (rw inv.dir apart)

      next_table-Mapped : Mapped low target m (next_table flags b)
      unfolding next_table
      next_table-Mapped = record {
        dir = inv.dir;
        ptr = omega (arith, inv.ptr);
        slot = inv.slot;
        pt = popped;
        count = omega (arith, inv.count, full);
        small = omega arith;
        begun = omega arith;
        tables = λ k kt. elim (ℕ_discrete k b.dir_ind) [
          | yes is ↦ rw is (ap frame new_entry ∙ framed)
          | no ne ↦ ap frame (old_entry k ne) ∙ inv.tables k (omega (arith, kt, ne))
        ];
        presents = λ k kt kl. elim (ℕ_discrete k b.dir_ind) [
          | yes is ↦
              let odd = on (omega (arith, kl, is, inv.count, full)) in
              rw is (
                ap (λ (w : ℕ). w % 2) new_entry
                ∙ omega (arith, odd, pages.whole (b.dir_ind + 1) next))
          | no ne ↦
              ap (λ (w : ℕ). w % 2) (old_entry k ne) ∙ inv.presents k (omega (arith, kt, ne)) kl
        ];
        entries = λ q qt. old_page q qt ∙ inv.entries q qt;
      }

  -- The table of the next page.
  made_room :
      (low : ℕ) (target : ℕ → ℕ) (flags m : ℕ) (b : Build)
      → Mapped low target m b
      → m < 1024 * (n - 1)
      → m < 1024 * 1023
      → flags < 4096
      → (m < low → flags % 2 ≡ 1)
      → Mapped low target m (if b.j == 1024 then next_table flags b else b)
        × ((if b.j == 1024 then next_table flags b else b).j < 1024)
  unfolding next_table
  made_room low target flags m b inv enough fits bits on = elim (Bool-cases (b.j == 1024)) [
    | inl full ↦
        let e : b.j ≡ 1024 = ground (arith, full) in
        rw full (
          next_table-Mapped low target m b inv (omega (arith, inv.count, e, enough))
              (omega (arith, inv.count, e, fits)) flags e (omega (arith, inv.count, e, enough))
              (omega (arith, inv.count, e, fits)) bits on,
          omega arith,
        )
    | inr more ↦ rw more (inv, ground (arith, more, inv.small))
  ]

  pub map_pages-Mapped :
      (low : ℕ) (target : ℕ → ℕ) (flags base left d i : ℕ) (b : Build)
      → Mapped low target (d + i) b
      → d + i + left ≤ 1024 * (n - 1)
      → d + i + left ≤ 1024 * 1023
      → flags < 4096
      → (d + i < low → flags % 2 ≡ 1)
      → ((k : ℕ) → i ≤ k → k < i + left → base + 4096 * k ≡ target (d + k))
      → Mapped low target (d + i + left) (map_pages flags base left i b)
  unfolding map_pages
  map_pages-Mapped low target flags base zero d i b inv enough fits bits on aims =
      subst (λ (x : ℕ). Mapped low target x b) (omega arith) inv
  map_pages-Mapped low target flags base (suc left) d i b inv enough fits bits on aims =
      let (inv', room) =
        made_room low target flags (d + i) b inv (omega (arith, enough)) (omega (arith, fits)) bits
          on in
      let b' = if b.j == 1024 then next_table flags b else b in
      let next =
        map_entry-Mapped low target (d + i) b' inv' (omega (arith, inv'.count, enough))
          (omega (arith, inv'.count, fits)) base i room (aims i (omega arith) (omega arith)) in
      subst
        (λ (x : ℕ). Mapped low target x (map_pages flags base left (i + 1) (map_entry base i b')))
        (omega arith)
        (map_pages-Mapped low target flags base left d (i + 1) (map_entry base i b')
          (subst (λ (x : ℕ). Mapped low target x (map_entry base i b')) (omega arith) next)
          (omega (arith, enough)) (omega (arith, fits)) bits (λ lt. on (omega (arith, lt)))
          (λ k ge lt. aims k (omega (arith, ge)) (omega (arith, lt))))
