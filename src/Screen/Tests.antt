-- ===== src/Screen/Tests.antt =====
-- lib/devs/scrn.c at a blank screen.
use jonix.Base.{◌%◌, refl, arith}
use jonix.Screen.{Screen, scrn_putc, cell}
use jonix.Screen.Cursor.{OnScreen, scrn_putc-OnScreen}

-- The cursor is at the end of the last line.
abbrev last_cell : Screen
last_cell = record { xpos = 79; ypos = 24; video = λ i. cell (i % 256); hw_cursor = 1999 }

last_cell-OnScreen : OnScreen last_cell
last_cell-OnScreen = record { column = omega arith; line = omega arith; cursor = refl }

scrn_putc-OnScreen_example : OnScreen (scrn_putc last_cell 65)
scrn_putc-OnScreen_example = scrn_putc-OnScreen last_cell 65 last_cell-OnScreen
