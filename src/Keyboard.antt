-- ===== src/Keyboard.antt =====
-- lib/devs/kb.c: the keyboard driver. What port 0x60 returns on its reads is a list of bytes, and
-- the writes to port 0x61 that acknowledge a read have no effect on the state.
pub mod Layout
pub mod Buffer
mod Tests
use jonix.Base.{
  ℕ, zero, suc, ◌+◌, ◌-◌, ◌%◌, Bool, true, false, not, ◌||◌, ltb, leb, ◌==◌, if◌then◌else◌, Option,
  none, some, List, [], ◌∷◌, bit_and, bit_or,
}
use jonix.Screen.{Screen, scrn_putc}
use Layout.{kb_layout, kb_layout_sh, key}

abbrev pub kb_buffer_size : ℕ
kb_buffer_size = 255

abbrev pub kbf_shift : ℕ
kbf_shift = 0x01

abbrev pub kbf_caps : ℕ
kbf_caps = 0x02

abbrev pub kbf_ctl : ℕ
kbf_ctl = 0x04

abbrev pub kbf_alt : ℕ
kbf_alt = 0x08

-- `full` says that `kb_err` holds the message of a full buffer.
pub record Keyboard : Type 0 where
  pub print_to_screen : Bool
  pub buffer : ℕ → ℕ
  pub buffer_pos : ℕ
  pub flags : ℕ
  pub full : Bool

-- `flags &= ~f`, over a byte.
abbrev pub clear_flag : ℕ → Keyboard → Keyboard
clear_flag f k = record k { flags = bit_and k.flags (255 - f) }

abbrev pub set_flag : ℕ → Keyboard → Keyboard
set_flag f k = record k { flags = bit_or k.flags f }

-- 0xE0 announces an extended key. The sum is an `unsigned char`.
unfoldable pub kb_read : List ℕ → Option (ℕ × List ℕ)
kb_read [] = none
kb_read (c ∷ port) =
    let rest = kb_read port in
    if c == 0xE0
    then elim rest [ none ↦ none | some (code, port') ↦ some ((128 + code) % 256, port') ]
    else some (c, port)

-- The loop of kb_handler that prints the buffer and clears it, from place `i` on.
unfoldable pub flush : ℕ → ℕ → (ℕ → ℕ) → Screen → (ℕ → ℕ) × Screen
flush zero i buffer s = (buffer, s)
flush (suc left) i buffer s =
    flush left (i + 1) (λ j. if j == i then 0 else buffer j) (scrn_putc s (buffer i))

-- A key release, by the code without its highest bit.
pub key_release : Keyboard → ℕ → Keyboard
key_release k c =
    if (c == 42) || (c == 54)
    then clear_flag kbf_shift k
    else if (c == 29) || (c == 128 + 29)
    then clear_flag kbf_ctl k
    else if (c == 56) || (c == 128 + 56)
    then clear_flag kbf_alt k
    else if c == 58
    then clear_flag kbf_caps k
    else k

-- The character of a scan code, by the layout for the state of the shift key.
pub char_of : Keyboard → ℕ → ℕ
char_of k c = if bit_and k.flags kbf_shift == 0 then key kb_layout c else key kb_layout_sh c

-- A key that is no modifier: its character is printed behind the buffer, or goes into the buffer.
pub key_char : Keyboard → Screen → ℕ → Keyboard × Screen
unfolding flush char_of
key_char k s c =
    let c' = char_of k c in
    let (buffer, s') = flush k.buffer_pos 0 k.buffer s in
    if k.print_to_screen
    then (record k { buffer = buffer; buffer_pos = 0 }, scrn_putc s' c')
    else if leb kb_buffer_size k.buffer_pos
    then (record k { full = true }, s)
    else (
      record k {
        buffer = λ j. if j == k.buffer_pos then c' else k.buffer j;
        buffer_pos = (k.buffer_pos + 1) % 256;
      },
      s,
    )

-- kb_handler, for the byte that kb_read has returned.
pub kb_handler : Keyboard → Screen → ℕ → Keyboard × Screen
unfolding key_release key_char
kb_handler k s c =
    if leb 128 c
    then (key_release k (c % 128), s)
    else if (c == 42) || (c == 54)
    then (set_flag kbf_shift k, s)
    else if (c == 29) || (c == 128 + 29)
    then (set_flag kbf_ctl k, s)
    else if (c == 56) || (c == 128 + 56)
    then (set_flag kbf_alt k, s)
    else if c == 58
    then (set_flag kbf_caps k, s)
    else key_char k s c

-- An interrupt: kb_handler with its call of kb_read.
pub kb_interrupt : Keyboard → Screen → List ℕ → Option (Keyboard × Screen × List ℕ)
unfolding kb_read kb_handler
kb_interrupt k s port = elim (kb_read port) [
  | none ↦ none
  | some (c, port') ↦ (let (k', s') = kb_handler k s c in some (k', s', port'))
]

abbrev pub cleared : ℕ → ℕ
cleared j = 0

-- kb_init, but for the handler that it sets and the layouts.
pub kb_init : Keyboard
kb_init = record {
  print_to_screen = false;
  buffer = cleared;
  buffer_pos = 0;
  flags = 0;
  full = false;
}

pub kb_reset : Keyboard → Keyboard
kb_reset k = record k {
  buffer = λ j. if ltb j (kb_buffer_size + 1) then 0 else k.buffer j;
  buffer_pos = 0;
  flags = 0;
  full = false;
}
