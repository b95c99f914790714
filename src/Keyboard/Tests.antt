-- ===== src/Keyboard/Tests.antt =====
-- lib/devs/kb.c at a keyboard with two characters in its buffer.
use jonix.Base.{◌==◌, if◌then◌else◌, true, false, arith}
use jonix.Screen.{Screen}
use jonix.Keyboard.{Keyboard, key_char}
use jonix.Keyboard.Buffer.{KeyEnd, key_char-KeyEnd}

abbrev blank : Screen
blank = record { xpos = 0; ypos = 0; video = λ i. 0; hw_cursor = 0 }

abbrev waiting : Keyboard
waiting = record {
  print_to_screen = false;
  buffer = λ j. if j == 0 then 104 else if j == 1 then 105 else 0;
  buffer_pos = 2;
  flags = 0;
  full = false;
}

abbrev printing : Keyboard
printing = record waiting { print_to_screen = true }

-- A buffer without room.
abbrev crowded : Keyboard
crowded = record waiting { buffer_pos = 255 }

key_char-KeyEnd_example : KeyEnd crowded blank 16 (key_char crowded blank 16)
key_char-KeyEnd_example = key_char-KeyEnd crowded blank 16 (omega arith)
