-- ===== src/Screen/Cursor.antt =====
-- lib/devs/scrn.c: the cursor stays on the screen, and what scrn_putc and scrn_scroll write.
use jonix.Base.{
  ℕ, zero, suc, ◌+◌, ◌*◌, ◌≡◌, ◌<◌, ◌≤◌, refl, ◌&&◌, ltb, leb, if◌then◌else◌, List, [], ◌∷◌, ◌++◌,
  arith,
}
use jonix.Screen.{
  Screen, screen_width, screen_height, cell, put_cell, memset_w, move_up, scrn_move_hw_cursor,
  scrn_scroll, put_char, wrap_line, scrn_putc, scrn_puts,
}

-- The position is on the screen, and the cursor of the display is there.
pub record OnScreen (s : Screen) : Type 0 where
  pub column : s.xpos < screen_width
  pub line : s.ypos < screen_height
  pub cursor : s.hw_cursor ≡ s.ypos * 80 + s.xpos

scrn_putc-position :
    (s : Screen) (c : ℕ)
    → s.xpos < 80
    → s.ypos < 25
    → ((scrn_putc s c).xpos < 80) × ((scrn_putc s c).ypos < 25)
unfolding scrn_putc scrn_scroll scrn_move_hw_cursor wrap_line put_char
scrn_putc-position s c column line = ground arith

scrn_putc-cursor :
    (s : Screen) (c : ℕ)
    → s.xpos < 80
    → s.ypos < 25
    → (scrn_putc s c).hw_cursor ≡ (scrn_putc s c).ypos * 80 + (scrn_putc s c).xpos
unfolding scrn_putc scrn_move_hw_cursor
scrn_putc-cursor s c column line =
    let (x, y) = scrn_putc-position s c column line in omega (arith, x, y)

-- scrn_putc keeps the position on the screen, for every character, and moves the cursor of the display
-- to it.
pub scrn_putc-OnScreen : (s : Screen) (c : ℕ) → OnScreen s → OnScreen (scrn_putc s c)
scrn_putc-OnScreen s c on =
    let (x, y) = scrn_putc-position s c on.column on.line in
    record { column = x; line = y; cursor = scrn_putc-cursor s c on.column on.line }

-- So does scrn_puts, for every string.
pub scrn_puts-OnScreen : (s : Screen) (cs : List ℕ) → OnScreen s → OnScreen (scrn_puts s cs)
unfolding scrn_puts
scrn_puts-OnScreen s [] on = on
scrn_puts-OnScreen s (c ∷ cs) on = scrn_puts-OnScreen (scrn_putc s c) cs (scrn_putc-OnScreen s c on)

-- Printing two strings is printing them in one.
pub scrn_puts-append :
    (s : Screen) (cs ds : List ℕ) → scrn_puts s (cs ++ ds) ≡ scrn_puts (scrn_puts s cs) ds
unfolding scrn_puts
scrn_puts-append s [] ds = refl
scrn_puts-append s (c ∷ cs) ds = scrn_puts-append (scrn_putc s c) cs ds

pub scrn_puts-last :
    (s : Screen) (cs : List ℕ) (c : ℕ) → scrn_puts s (cs ++ c ∷ []) ≡ scrn_putc (scrn_puts s cs) c
unfolding scrn_puts
scrn_puts-last s [] c = refl
scrn_puts-last s (d ∷ cs) c = scrn_puts-last (scrn_putc s d) cs c

memset_w_lem :
    (left i v : ℕ) (video : ℕ → ℕ) (j : ℕ)
    → memset_w left i v video j ≡ (if leb i j && ltb j (i + left) then v else video j)
unfolding memset_w
memset_w_lem zero i v video j = ground arith
memset_w_lem (suc left) i v video j =
    ground (arith, memset_w_lem left (i + 1) v (put_cell video i v) j)

move_up_lem :
    (left i : ℕ) (video : ℕ → ℕ) (j : ℕ)
    → move_up left i video j ≡ (if leb i j && ltb j (i + left) then video (j + 80) else video j)
unfolding move_up
move_up_lem zero i video j = ground arith
move_up_lem (suc left) i video j =
    ground (arith, move_up_lem left (i + 1) (put_cell video i (video (i + 80))) j, put_ne j)
  where
    put_ne : (k : ℕ) → i ≤ k → put_cell video i (video (i + 80)) (k + 80) ≡ video (k + 80)
    put_ne k le = ground arith

-- scrn_scroll shows each line but the last one line higher, and blanks the last line. It blanks the
-- 80 cells behind the screen too, and leaves the cells after them.
pub scrn_scroll-video :
    (s : Screen) (j : ℕ)
    → (scrn_scroll s).video j
      ≡ (if ltb j 1920 then s.video (j + 80) else if ltb j 2080 then cell 32 else s.video j)
unfolding scrn_scroll scrn_move_hw_cursor
scrn_scroll-video s j =
    rw (memset_w_lem 160 1920 (cell 32) (move_up 1920 0 s.video) j, move_up_lem 1920 0 s.video j)
      (ground arith)
