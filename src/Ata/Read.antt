-- ===== src/Ata/Read.antt =====
-- lib/devs/ata.c: ata_pio_lba28_read at a drive.
use mathlib.Core.Path.{fun_ext}
use jonix.Base.{
  ℕ, zero, suc, ◌+◌, ◌*◌, ◌/◌, ◌%◌, ◌^◌, ◌≤◌, ◌<◌, ◌≡◌, refl, ap, ◌∙◌, sym, Bool, true, false, Ptr,
  Mem, ltb, ◌==◌, if◌then◌else◌, arith,
}
use jonix.Io.{Ports}
use jonix.Ata.{
  AtaCtlr, ata_data, ata_sec_cnt, ata_lba_1, ata_lba_2, ata_lba_3, ata_drive_select, ata_status,
  wait_drq_loop, ata_ctlr_wait_drq, read_data, read_sectors, read_command, ata_ctlr_select_dev,
  ata_pio_lba28_read,
}
use jonix.Ata.Drive.{Regs, Transfer, started, advance, stream, IsDrive, request}
use jonix.Ata.Load.{loaded, load_more, load_none}
use jonix.Ata.Words.{read_data-Read}

module _ (P : Ports) (base : ℕ) (sector : ℕ → ℕ → ℕ → ℕ) (drive : IsDrive P base sector) where
  -- What a wait leaves when the drive becomes ready.
  abbrev Waited : P.State × Bool → Transfer → Type 0
  Waited r t = (r.1 ≡ true) × (drive.xfer r.0 ≡ t) × (drive.delay r.0 ≡ 0)

  wait_drq-Waited :
      (left d : ℕ) (s : P.State) (t : Transfer)
      → drive.delay s ≡ d
      → drive.xfer s ≡ t
      → d < left
      → t.pos < t.size
      → Waited (wait_drq_loop P base left s) t
  unfolding wait_drq_loop
  wait_drq-Waited zero d s t e is_t lt more = ground (arith, lt)
  wait_drq-Waited (suc left) zero s t e is_t lt more =
      let (ready, still) = drive.poll_ready s e (rw is_t more) in
      rw (ready.not_bsy, ready.not_bad, ready.drq) (refl, drive.poll s ∙ is_t, still)
  wait_drq-Waited (suc left) (suc d) s t e is_t lt more =
      let (bsy, e') = drive.poll_busy s d e in
      rw bsy (
        wait_drq-Waited left d (P.inb s (base + ata_status)).0 t e' (drive.poll s ∙ is_t)
          (omega (arith, lt)) more)

  -- What the outer loop leaves.
  abbrev AllRead : ℕ → P.State × Mem × Bool → Transfer → Mem → Ptr → Type 0
  AllRead n r t m buffer =
      (r.2 ≡ true) × (r.1 ≡ loaded (stream sector t) (2 * t.pos) buffer (512 * n) m)

  join_sectors :
      (n : ℕ) (t : Transfer) (m : Mem) (buffer : Ptr)
      → loaded
          (stream sector t)
          (2 * (t.pos + 256))
          (buffer + 512)
          (512 * n)
          (loaded (stream sector t) (2 * t.pos) buffer (2 * 256) m)
        ≡ loaded (stream sector t) (2 * t.pos) buffer (512 * suc n) m
  join_sectors n t m buffer =
      let e1 : 2 * (t.pos + 256) ≡ 2 * t.pos + 512 = omega arith in
      let e2 : 512 * suc n ≡ 512 + 512 * n = omega arith in
      rw (e1, e2) (fun_ext (load_more (stream sector t) (2 * t.pos) (512 * n) 512 buffer m))

  read_sectors-AllRead :
      (n k : ℕ) (s : P.State) (t : Transfer) (m : Mem) (buffer : Ptr)
      → drive.xfer s ≡ t
      → t.pos ≡ 256 * k
      → t.pos + 256 * n ≤ t.size
      → AllRead n (read_sectors P base n s m buffer) t m buffer
  unfolding read_sectors ata_ctlr_wait_drq
  read_sectors-AllRead zero k s t m buffer is_t at fits =
      (refl, sym (fun_ext (load_none (stream sector t) (2 * t.pos) buffer m)))
  read_sectors-AllRead (suc n) k s t m buffer is_t at fits =
      let (ok, waited, ready) =
        wait_drq-Waited 1000 (drive.delay s) s t refl is_t (drive.quick s) (omega (arith, fits)) in
      let (moved, mem) =
        read_data-Read P base sector drive 256 (wait_drq_loop P base 1000 s).0 t m buffer (record {
          is_t = waited;
          ready = λ lt. ready;
          here = omega (arith, at);
          fits = omega (arith, fits);
        }) in
      let (ok', mem') =
        read_sectors-AllRead n (k + 1)
          (read_data P (base + ata_data) 256 (wait_drq_loop P base 1000 s).0 m buffer).0
          (advance 256 t)
          (read_data P (base + ata_data) 256 (wait_drq_loop P base 1000 s).0 m buffer).1
          (buffer + 512) moved (omega (arith, at)) (omega (arith, fits)) in
      rw ok (ok', mem' ∙ rw mem (join_sectors n t m buffer))

  abbrev head_of : Bool → ℕ → ℕ
  head_of devno lba = 2 ^ 6 + (if devno then 2 ^ 4 else 0) + lba * 2 ^ 24 % 2 ^ 32 % 2 ^ 4

  head_of-value : (devno : Bool) (lba : ℕ) → head_of devno lba ≡ (if devno then 80 else 64)
  head_of-value true lba = omega arith
  head_of-value false lba = omega arith

  started-request :
      (devno : Bool) (lba n : ℕ)
      → 0 < n
      → started (record {
        head = if devno then 80 else 64;
        count = n;
        lba1 = lba % 2 ^ 8;
        lba2 = lba / 2 ^ 8 % 2 ^ 8;
        lba3 = lba / 2 ^ 16 % 2 ^ 8;
      })
        ≡ request devno lba n
  started-request true lba n some_left =
      let e : n == 0 ≡ false = ground (arith, some_left) in
      let f : lba % 2 ^ 8 + lba / 2 ^ 8 % 2 ^ 8 * 2 ^ 8 + lba / 2 ^ 16 % 2 ^ 8 * 2 ^ 16 + 0
          ≡ lba % 2 ^ 24 =
        omega arith in
      rw (e, f) refl
  started-request false lba n some_left =
      let e : n == 0 ≡ false = ground (arith, some_left) in
      let f : lba % 2 ^ 8 + lba / 2 ^ 8 % 2 ^ 8 * 2 ^ 8 + lba / 2 ^ 16 % 2 ^ 8 * 2 ^ 16 + 0
          ≡ lba % 2 ^ 24 =
        omega arith in
      rw (e, f) refl

  lba_mode : (devno : Bool) → (if devno then 80 else 64) / 2 ^ 6 % 2 ≡ 1
  lba_mode true = refl
  lba_mode false = refl

  read_command-request :
      (devno : Bool) (lba n : ℕ) (s : P.State)
      → 0 < n
      → drive.xfer (read_command P base devno lba n s) ≡ request devno lba n
  unfolding read_command
  read_command-request devno lba n s some_left =
      let head = head_of devno lba in
      let s1 = P.outb s (base + ata_drive_select) head in
      let s2 = P.outb s1 (base + ata_sec_cnt) n in
      let s3 = P.outb s2 (base + ata_lba_1) (lba % 2 ^ 8) in
      let s4 = P.outb s3 (base + ata_lba_2) (lba / 2 ^ 8 % 2 ^ 8) in
      let s5 = P.outb s4 (base + ata_lba_3) (lba / 2 ^ 16 % 2 ^ 8) in
      let r2 =
        drive.out_count s1 n
        ∙ ap {A = Regs} (λ r. record r { count = n }) (drive.out_head s head) in
      let r3 =
        drive.out_lba1 s2 (lba % 2 ^ 8) ∙ ap {A = Regs} (λ r. record r { lba1 = lba % 2 ^ 8 }) r2 in
      let r4 =
        drive.out_lba2 s3 (lba / 2 ^ 8 % 2 ^ 8)
        ∙ ap {A = Regs} (λ r. record r { lba2 = lba / 2 ^ 8 % 2 ^ 8 }) r3 in
      let r5 =
        drive.out_lba3 s4 (lba / 2 ^ 16 % 2 ^ 8)
        ∙ ap {A = Regs} (λ r. record r { lba3 = lba / 2 ^ 16 % 2 ^ 8 }) r4 in
      let r6 =
        r5
        ∙ ap {B = Regs}
            (λ h. record {
              head = h;
              count = n;
              lba1 = lba % 2 ^ 8;
              lba2 = lba / 2 ^ 8 % 2 ^ 8;
              lba3 = lba / 2 ^ 16 % 2 ^ 8;
            })
            (head_of-value devno lba) in
      drive.command s5 (ap {A = Regs} (λ r. r.head / 2 ^ 6 % 2) r6 ∙ lba_mode devno)
      ∙ ap started r6
      ∙ started-request devno lba n some_left

-- A drive that answers within the timeout gives ata_pio_lba28_read the sectors that it asks for, if
-- they are at least one and the device has them: the call returns 1, and memory is as before but
-- for the buffer, which holds the words of the sectors from lba % 2^24 on, low byte first.
pub ata_pio_lba28_read-sectors :
    {L : Type 0} (P : Ports) (sector : ℕ → ℕ → ℕ → ℕ) (s : P.State) (ctlr : AtaCtlr L)
    (sec_cnt_28 : ℕ) (devno : Bool) (lba n : ℕ) (m : Mem) (buffer : Ptr)
    → IsDrive P ctlr.base sector
    → 0 < n
    → lba + n ≤ sec_cnt_28
    → sec_cnt_28 < 2 ^ 32
    → ((ata_pio_lba28_read P s ctlr sec_cnt_28 devno lba n m buffer).3 ≡ true)
      × ((ata_pio_lba28_read P s ctlr sec_cnt_28 devno lba n m buffer).2
          ≡ loaded (stream sector (request devno lba n)) 0 buffer (512 * n) m)
unfolding ata_pio_lba28_read
ata_pio_lba28_read-sectors P sector s ctlr sec_cnt_28 devno lba n m buffer drive some_left fits
      small =
    let e : ltb sec_cnt_28 ((lba + n) % 2 ^ 32) ≡ false = ground (arith, fits, small) in
    let s1 = (ata_ctlr_select_dev P s ctlr devno).0 in
    rw e (
      read_sectors-AllRead P ctlr.base sector drive n 0 (read_command P ctlr.base devno lba n s1)
        (request devno lba n) m buffer
        (read_command-request P ctlr.base sector drive devno lba n s1 some_left) refl (omega arith))
