-- ===== src/Screen.antt =====
-- lib/devs/scrn.c, and memset_w of lib/c/string.c: the text screen.
-- The video memory is a function of the cell, counted from VIDEO_MEMORY_BASE; a cell is one
-- `uint16_t`. The globals `attribute` and `tab_width` are written by no code, so they are constants.
pub mod Cursor
mod Tests
use jonix.Base.{
  ℕ, zero, suc, ◌+◌, ◌-◌, ◌*◌, ◌%◌, ◌^◌, Bool, true, false, ltb, leb, ◌==◌, if◌then◌else◌, List, [],
  ◌∷◌, ◌++◌,
}

abbrev pub screen_width : ℕ
screen_width = 80

abbrev pub screen_height : ℕ
screen_height = 25

abbrev pub attribute : ℕ
attribute = 0x1F

abbrev pub tab_width : ℕ
tab_width = 8

-- `hw_cursor` is the offset that was last sent to the ports of the display.
pub record Screen : Type 0 where
  pub xpos : ℕ
  pub ypos : ℕ
  pub video : ℕ → ℕ
  pub hw_cursor : ℕ

-- `c | (attribute << 8)` of a byte.
abbrev pub cell : ℕ → ℕ
cell c = c + attribute * 256

abbrev pub put_cell : (ℕ → ℕ) → ℕ → ℕ → ℕ → ℕ
put_cell video i v j = if j == i then v else video j

-- The loop of memset_w, and of scrn_clear, from cell `i` on.
pub memset_w : ℕ → ℕ → ℕ → (ℕ → ℕ) → ℕ → ℕ
memset_w zero i v video = video
memset_w (suc left) i v video = memset_w left (i + 1) v (put_cell video i v)

pub scrn_clear : Screen → Screen
unfolding memset_w
scrn_clear s = record s { video = memset_w (screen_width * screen_height) 0 (cell 32) s.video }

pub scrn_move_hw_cursor : Screen → Screen
scrn_move_hw_cursor s = record s { hw_cursor = (s.ypos * 80 + s.xpos) % 2 ^ 16 }

-- The memmove of scrn_scroll: the destination lies below the source, so it copies upwards.
pub move_up : ℕ → ℕ → (ℕ → ℕ) → ℕ → ℕ
move_up zero i video = video
move_up (suc left) i video = move_up left (i + 1) (put_cell video i (video (i + 80)))

-- memset_w counts cells, and is given twice the cells of a line.
pub scrn_scroll : Screen → Screen
unfolding memset_w move_up scrn_move_hw_cursor
scrn_scroll s =
    let moved = move_up (screen_width * (screen_height - 1)) 0 s.video in
    let video = memset_w (screen_width * 2) (screen_width * (screen_height - 1)) (cell 32) moved in
    scrn_move_hw_cursor (record s { video = video; ypos = (s.ypos + 255) % 256 })

-- The first part of scrn_putc: what a character does to the position and to the cell there.
pub put_char : Screen → ℕ → Screen
put_char s c =
    if c == 9
    then record s { xpos = (s.xpos + tab_width - (s.xpos + tab_width) % tab_width) % 256 }
    else if c == 13
    then record s { xpos = 0 }
    else if c == 10
    then record s { xpos = 0; ypos = (s.ypos + 1) % 256 }
    else if c == 8
    then record s { xpos = if ltb 0 s.xpos then s.xpos - 1 else s.xpos }
    else if leb 32 c
    then record s {
      video = put_cell s.video (s.xpos + screen_width * s.ypos) (cell c);
      xpos = (s.xpos + 1) % 256;
    }
    else s

pub wrap_line : Screen → Screen
wrap_line s =
    if leb screen_width s.xpos then record s { xpos = 0; ypos = (s.ypos + 1) % 256 } else s

pub scrn_putc : Screen → ℕ → Screen
unfolding put_char wrap_line scrn_scroll scrn_move_hw_cursor
scrn_putc s c =
    let s' = wrap_line (put_char s c) in
    scrn_move_hw_cursor (if leb screen_height s'.ypos then scrn_scroll s' else s')

unfoldable pub scrn_puts : Screen → List ℕ → Screen
unfolding scrn_putc
scrn_puts s [] = s
scrn_puts s (c ∷ cs) = scrn_puts (scrn_putc s c) cs

-- An array of strings, `str` and those behind it, with `delim` between each two. An array of no
-- strings is not modelled: the code prints `str[0]` all the same.
pub scrn_puta : Screen → List ℕ → List (List ℕ) → List ℕ → Screen
unfolding scrn_puts
scrn_puta s str [] delim = scrn_puts s str
scrn_puta s str (str2 ∷ strs) delim = scrn_puta (scrn_puts (scrn_puts s str) delim) str2 strs delim
