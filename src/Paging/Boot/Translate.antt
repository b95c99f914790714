-- ===== src/Paging/Boot/Translate.antt =====
-- lib/mem.c: the addresses that the tables of mem_init translate.
use mathlib.Core.Path.{subst}
use native.Mathlib.Decide.{ℕ_discrete}
use jonix.Base.{
  ℕ, ◌+◌, ◌-◌, ◌*◌, ◌/◌, ◌%◌, ◌^◌, ◌≤◌, ◌<◌, ◌≡◌, ◌≢◌, refl, ap, ◌∙◌, sym, true, false, ltb,
  if◌then◌else◌, Ptr, arith, eq→==, in_range,
}
use jonix.Paging.{PageStack, present}
use jonix.Paging.Boot.{
  Build, next_table, map_pages, start_tables, end_tables, mem_init_tables, zero_words,
}
use jonix.Paging.Boot.Identity.{
  frame, store_other, store_same, IsPages, words_apart, Mapped, map_pages-Mapped,
}

-- What the processor does with a virtual address, given the physical memory and the page directory.
abbrev pub entry_of : (Ptr → ℕ) → Ptr → ℕ → ℕ
entry_of word dir v = word (frame (word (dir + 4 * (v / 2 ^ 22))) + 4 * (v / 2 ^ 12 % 1024))

abbrev pub translate : (Ptr → ℕ) → Ptr → ℕ → ℕ
translate word dir v = frame (entry_of word dir v) + v % 4096

-- The address behind page `q`.
abbrev pub target : ℕ → ℕ → ℕ
target low q = if ltb q low then 4096 * q else 4096 * 4096 + 4096 * (q - low)

zero_other :
    (p n : ℕ) (word : Ptr → ℕ) (q : ℕ)
    → in_range p (4 * n) q ≡ false
    → zero_words p n word q ≡ word q
zero_other p n word q out = rw out refl

module _ (n : ℕ) (s0 : PageStack) (page : ℕ → ℕ) (pages : IsPages n s0 page) (word : Ptr → ℕ)
    (low high : ℕ) (two : 2 ≤ n) (enough : low + high < 1024 * (n - 1))
    (fits : low + high < 1024 * 1023) where
  start_tables-Mapped : Mapped n s0 page pages low (target low) 0 (start_tables s0 word)
  unfolding start_tables next_table
  start_tables-Mapped =
      let first : s0.slot s0.ptr ≡ page 0 =
        ap s0.slot {y = s0.ptr + 4 * 0} (omega arith) ∙ pages.slot 0 (omega (arith, two)) in
      let second : s0.slot (s0.ptr + 4) ≡ page 1 = pages.slot 1 (omega (arith, two)) in
      let value : (k : ℕ) → k < 1 → (start_tables s0 word).word (page 0 + 4 * k) ≡ page 1 + 3 =
        λ k kt.
          store_same word _ _ (page 0 + 4 * k) (omega (arith, first, kt))
          ∙ ap (λ (x : ℕ). x + 3) second in
      let whole = pages.whole 1 (omega (arith, two)) in
      record {
        dir = first;
        ptr = omega arith;
        slot = refl;
        pt = second;
        count = omega arith;
        small = omega arith;
        begun = omega arith;
        tables = λ k kt.
            ap frame (value k kt) ∙ omega (arith, whole) ∙ ap page {x = 1} (omega (arith, kt));
        presents = λ k kt kl. ap (λ (w : ℕ). w % 2) (value k kt) ∙ omega (arith, whole);
        entries = λ q qt. absurd (omega (arith, qt));
      }

  abbrev built : Build
  built = map_pages 0 (4096 * 4096) high 0 (map_pages 3 0 low 0 (start_tables s0 word))

  built-Mapped : Mapped n s0 page pages low (target low) (low + high) built
  built-Mapped =
      let first =
        map_pages-Mapped n s0 page pages low (target low) 3 0 low 0 0 (start_tables s0 word)
          start_tables-Mapped (omega (arith, enough)) (omega (arith, fits)) (omega arith)
          (λ lt. refl) (λ k ge lt. ground (arith, lt)) in
      subst (λ (x : ℕ). Mapped n s0 page pages low (target low) x built) (omega arith)
        (map_pages-Mapped n s0 page pages low (target low) 0 (4096 * 4096) high low 0 _
          (subst
            (λ (x : ℕ).
              Mapped n s0 page pages low (target low) x
                (map_pages 3 0 low 0 (start_tables s0 word)))
            (omega arith) first)
          (omega (arith, enough)) (omega (arith, fits)) (omega arith)
          (λ lt. absurd (omega (arith, lt))) (λ k ge lt. ground (arith, lt)))

  -- A range inside one page does not reach into another one.
  page_apart :
      (k l r lo size : ℕ)
      → k < n
      → l < n
      → k ≢ l
      → r < 1024
      → lo + size ≤ 4096
      → in_range (page l + lo) size (page k + 4 * r) ≡ false
  page_apart k l r lo size kn ln ne small inside =
      let differ : page k ≢ page l = λ e. ne (pages.once k l kn ln e) in
      ground (arith, differ, pages.whole k kn, pages.whole l ln, small, inside)

  end_kept :
      (b : Build) (x : ℕ)
      → x ≢ b.dir + 4 * 1023
      → in_range (b.dir + 4 * b.dir_ind) (4 * (1023 - b.dir_ind)) x ≡ false
      → in_range (b.pt + 4 * b.j) (4 * (1024 - b.j)) x ≡ false
      → (end_tables b).word x ≡ b.word x
  unfolding end_tables
  end_kept b x last dir table =
      let word1 = zero_words (b.pt + 4 * b.j) (1024 - b.j) b.word in
      let word2 = zero_words (b.dir + 4 * b.dir_ind) (1023 - b.dir_ind) word1 in
      store_other word2 (b.dir + 4 * 1023) (b.dir + 3) x last
      ∙ zero_other (b.dir + 4 * b.dir_ind) (1023 - b.dir_ind) word1 x dir
      ∙ zero_other (b.pt + 4 * b.j) (1024 - b.j) b.word x table

  module _ (b : Build) (inv : Mapped n s0 page pages low (target low) (low + high) b) where
    few : b.dir_ind ≤ 1023
    few = omega (arith, inv.count, fits)

    known : b.dir_ind < n
    known = omega (arith, inv.count, enough)

    -- The end of mem_init leaves the entries of the directory and of the tables.
    end_dir :
        (k : ℕ) → k < b.dir_ind → (end_tables b).word (page 0 + 4 * k) ≡ b.word (page 0 + 4 * k)
    end_dir k kt =
        let other : 0 ≢ b.dir_ind = λ e. absurd (omega (arith, e, inv.begun)) in
        end_kept b (page 0 + 4 * k) (λ e. absurd (omega (arith, e, inv.dir, kt, few)))
          (ground (arith, inv.dir, kt))
          (rw inv.pt (
            page_apart 0 b.dir_ind k (4 * b.j) (4 * (1024 - b.j)) (omega (arith, known)) known other
              (omega (arith, kt, few)) (omega (arith, inv.small))))

    end_table :
        (t r : ℕ)
        → 1 ≤ t
        → t ≤ b.dir_ind
        → r < 1024
        → (t ≡ b.dir_ind → r < b.j)
        → (end_tables b).word (page t + 4 * r) ≡ b.word (page t + 4 * r)
    end_table t r ge le small used =
        let other : t ≢ 0 = λ e. absurd (omega (arith, e, ge)) in
        let tn : t < n = omega (arith, le, known) in
        let zn : 0 < n = omega (arith, known) in
        let last : page t + 4 * r ≢ b.dir + 4 * 1023 =
          rw inv.dir (words_apart n s0 page pages t 0 r 1023 tn zn other small (omega arith)) in
        let dir : in_range (b.dir + 4 * b.dir_ind) (4 * (1023 - b.dir_ind)) (page t + 4 * r)
            ≡ false =
          rw inv.dir (
            page_apart t 0 r (4 * b.dir_ind) (4 * (1023 - b.dir_ind)) tn zn other small
              (omega (arith, few))) in
        end_kept b (page t + 4 * r) last dir (elim (ℕ_discrete t b.dir_ind) [
          | yes e ↦
              let here : page t ≡ b.pt = ap page e ∙ sym inv.pt in ground (arith, here, used e)
          | no ne ↦ rw inv.pt (
              page_apart t b.dir_ind r (4 * b.j) (4 * (1024 - b.j)) tn known ne small
                (omega (arith, inv.small)))
        ])

    end_dir_is : (end_tables b).dir ≡ page 0
    unfolding end_tables
    end_dir_is = inv.dir

    -- The entry by which the processor finds page `q`.
    end_entry :
        (v q : ℕ)
        → v / 4096 ≡ q
        → q < low + high
        → entry_of (end_tables b).word (end_tables b).dir v ≡ target low q + 3
    end_entry v q e qt =
        let i1 : v / 2 ^ 22 ≡ q / 1024 = omega (arith, e) in
        let i2 : v / 2 ^ 12 % 1024 ≡ q % 1024 = omega (arith, e) in
        let begun : q / 1024 < b.dir_ind = omega (arith, inv.count, inv.small, qt) in
        let table = ap frame (end_dir (q / 1024) begun) ∙ inv.tables (q / 1024) begun in
        let entry =
          end_table (q / 1024 + 1) (q % 1024) (omega arith) (omega (arith, begun)) (omega arith)
            (λ last. omega (arith, last, inv.count, qt)) in
        let w = (end_tables b).word in
        let dir = (end_tables b).dir in
        let at : dir + 4 * (v / 2 ^ 22) ≡ page 0 + 4 * (q / 1024) = omega (arith, end_dir_is, i1) in
        let found = ap (λ (x : ℕ). frame (w x)) at ∙ table in
        let place =
          ap (λ (x : ℕ). x + 4 * (v / 2 ^ 12 % 1024)) found
          ∙ ap (λ (x : ℕ). page (q / 1024 + 1) + 4 * x) i2 in
        ap w place ∙ entry ∙ inv.entries q qt

    end_present :
        (v : ℕ)
        → v / 4096 < low
        → (present ((end_tables b).word ((end_tables b).dir + 4 * (v / 2 ^ 22))) ≡ true)
          × (present (entry_of (end_tables b).word (end_tables b).dir v) ≡ true)
    end_present v lt =
        let begun : v / 2 ^ 22 < b.dir_ind = omega (arith, inv.count, inv.small, lt) in
        let kept =
          ap (λ (x : ℕ). (end_tables b).word (x + 4 * (v / 2 ^ 22))) end_dir_is
          ∙ end_dir (v / 2 ^ 22) begun in
        let odd =
          ap (λ (w : ℕ). w % 2) kept ∙ inv.presents (v / 2 ^ 22) begun (omega (arith, lt)) in
        let entry = end_entry v (v / 4096) refl (omega (arith, lt)) in
        (eq→== _ 1 odd, eq→== _ 1 (ap (λ (w : ℕ). w % 2) entry ∙ ground (arith, lt)))

    end_translate :
        (v : ℕ)
        → v / 4096 < low + high
        → translate (end_tables b).word (end_tables b).dir v ≡ target low (v / 4096) + v % 4096
    end_translate v small = rw (end_entry v (v / 4096) refl small) (ground arith)

pub mem_init_tables-translate :
    (n : ℕ) (s0 : PageStack) (page : ℕ → ℕ) (word : Ptr → ℕ) (low high : ℕ) (v : ℕ)
    → IsPages n s0 page
    → 2 ≤ n
    → low + high < 1024 * (n - 1)
    → low + high < 1024 * 1023
    → v < 4096 * (low + high)
    → translate (mem_init_tables low high s0 word).word (mem_init_tables low high s0 word).dir v
      ≡ (if ltb v (4096 * low) then v else 4096 * 4096 + (v - 4096 * low))
unfolding mem_init_tables
mem_init_tables-translate n s0 page word low high v pages two enough fits small =
    end_translate n s0 page pages word low high two enough fits
      (built n s0 page pages word low high two enough fits)
      (built-Mapped n s0 page pages word low high two enough fits) v (omega (arith, small))
    ∙ ground arith

pub mem_init_tables-present :
    (n : ℕ) (s0 : PageStack) (page : ℕ → ℕ) (word : Ptr → ℕ) (low high : ℕ) (v : ℕ)
    → IsPages n s0 page
    → 2 ≤ n
    → low + high < 1024 * (n - 1)
    → low + high < 1024 * 1023
    → v < 4096 * low
    → (present (
          (mem_init_tables low high s0 word).word
            ((mem_init_tables low high s0 word).dir + 4 * (v / 2 ^ 22)))
        ≡ true)
      × (present (
            entry_of
              (mem_init_tables low high s0 word).word
              (mem_init_tables low high s0 word).dir
              v)
          ≡ true)
unfolding mem_init_tables
mem_init_tables-present n s0 page word low high v pages two enough fits small =
    end_present n s0 page pages word low high two enough fits
      (built n s0 page pages word low high two enough fits)
      (built-Mapped n s0 page pages word low high two enough fits) v (omega (arith, small))
