-- ===== src/Keyboard/Buffer.antt =====
-- lib/devs/kb.c: the buffer of characters, and the codes of extended keys.
use native.Mathlib.Numerals.{add-one}
use mathlib.Core.Path.{subst}
use jonix.Base.{
  ℕ, zero, suc, ◌+◌, ◌%◌, ◌≡◌, ◌≢◌, ◌<◌, ◌≤◌, refl, sym, ap, ◌∙◌, true, false, ltb, leb, ◌==◌,
  if◌then◌else◌, some, inl, inr, Bool-cases, List, [], ◌∷◌, ◌++◌, arith, ◌&&◌, ne→==,
}
use jonix.Screen.{Screen, scrn_putc, scrn_puts}
use jonix.Screen.Cursor.{scrn_puts-last}
use jonix.Util.OArray.View.{slots, slots_ext, slots-last}
use jonix.Keyboard.{
  Keyboard, kb_buffer_size, kb_read, flush, key_release, key_char, char_of, kb_handler,
  kb_interrupt,
}

flush-screen :
    (left i : ℕ) (buffer : ℕ → ℕ) (s : Screen)
    → (flush left i buffer s).1 ≡ scrn_puts s (slots buffer i left)
unfolding flush scrn_puts
flush-screen zero i buffer s = refl
flush-screen (suc left) i buffer s =
    let cut : ℕ → ℕ = λ j. if j == i then 0 else buffer j in
    flush-screen left (i + 1) cut (scrn_putc s (buffer i))
    ∙ ap (scrn_puts (scrn_putc s (buffer i)))
        (slots_ext cut buffer (i + 1) (i + 1) left (λ k lt. ground arith))

flush-cleared :
    (left i : ℕ) (buffer : ℕ → ℕ) (s : Screen) (j : ℕ)
    → (flush left i buffer s).0 j ≡ (if leb i j && ltb j (i + left) then 0 else buffer j)
unfolding flush
flush-cleared zero i buffer s j = ground arith
flush-cleared (suc left) i buffer s j =
    let cut : ℕ → ℕ = λ n. if n == i then 0 else buffer n in
    ground (arith, flush-cleared left (i + 1) cut (scrn_putc s (buffer i)) j)

slots-put :
    (f : ℕ → ℕ) (p v : ℕ) → slots (λ j. if j == p then v else f j) 0 (p + 1) ≡ slots f 0 p ++ v ∷ []
slots-put f p v =
    let g : ℕ → ℕ = λ j. if j == p then v else f j in
    let last : g (0 + p) ≡ v = ground arith in
    let same = slots_ext g f 0 0 p (λ k lt. ground arith) in
    rw (add-one, slots-last g 0 p, last, same) refl

-- How the press of a key of code `c` that is no modifier ends: it is printed behind the characters
-- of the buffer, is put behind them, or finds the buffer full.
pub data KeyEnd (k : Keyboard) (s : Screen) (c : ℕ) : Keyboard × Screen → Type 0 where
  printed :
      (b : ℕ → ℕ)
      → k.print_to_screen ≡ true
      → ((j : ℕ) → b j ≡ (if ltb j k.buffer_pos then 0 else k.buffer j))
      → KeyEnd k s c (
        record k { buffer = b; buffer_pos = 0 },
        scrn_puts s (slots k.buffer 0 k.buffer_pos ++ char_of k c ∷ []),
      )
  buffered :
      (b : ℕ → ℕ)
      → k.print_to_screen ≡ false
      → k.buffer_pos < kb_buffer_size
      → slots b 0 (k.buffer_pos + 1) ≡ slots k.buffer 0 k.buffer_pos ++ char_of k c ∷ []
      → KeyEnd k s c (record k { buffer = b; buffer_pos = k.buffer_pos + 1 }, s)
  no_room :
      k.print_to_screen ≡ false
      → k.buffer_pos ≡ kb_buffer_size
      → KeyEnd k s c (record k { full = true }, s)

key_char-print :
    (k : Keyboard) (s : Screen) (c : ℕ)
    → k.print_to_screen ≡ true
    → key_char k s c ≡ (
      record k { buffer = (flush k.buffer_pos 0 k.buffer s).0; buffer_pos = 0 },
      scrn_puts s (slots k.buffer 0 k.buffer_pos ++ char_of k c ∷ []),
    )
unfolding key_char
key_char-print k s c printing =
    rw
      (
        flush-screen k.buffer_pos 0 k.buffer s,
        sym (scrn_puts-last s (slots k.buffer 0 k.buffer_pos) (char_of k c)),
      )
      (ground arith)

key_char-buffer :
    (k : Keyboard) (s : Screen) (c : ℕ)
    → k.print_to_screen ≡ false
    → k.buffer_pos < kb_buffer_size
    → key_char k s c ≡ (
      record k {
        buffer = λ j. if j == k.buffer_pos then char_of k c else k.buffer j;
        buffer_pos = k.buffer_pos + 1;
      },
      s,
    )
unfolding key_char
key_char-buffer k s c waiting room =
    let free : leb kb_buffer_size k.buffer_pos ≡ false = ground arith in
    let next : (k.buffer_pos + 1) % 256 ≡ k.buffer_pos + 1 = omega arith in
    rw (waiting, free, next) refl

key_char-full :
    (k : Keyboard) (s : Screen) (c : ℕ)
    → k.print_to_screen ≡ false
    → k.buffer_pos ≡ kb_buffer_size
    → key_char k s c ≡ (record k { full = true }, s)
unfolding key_char
key_char-full k s c waiting at_end =
    let full : leb kb_buffer_size k.buffer_pos ≡ true = ground (arith, at_end) in
    rw (waiting, full) refl

-- A key that is no modifier, with the place of the next character at most 255: while keys are
-- printed, the characters of the buffer and then its own are printed, and the buffer is empty and
-- its old places 0. Otherwise its character goes behind those in the buffer and nothing is printed,
-- or the buffer is full, and it, the place and the screen stay as they are and only the error is
-- set.
pub key_char-KeyEnd :
    (k : Keyboard) (s : Screen) (c : ℕ)
    → k.buffer_pos ≤ kb_buffer_size
    → KeyEnd k s c (key_char k s c)
key_char-KeyEnd k s c small = elim (Bool-cases k.print_to_screen) [
  | inl printing ↦
      subst (KeyEnd k s c) (sym (key_char-print k s c printing))
        (printed _ printing (λ j. ground (arith, flush-cleared k.buffer_pos 0 k.buffer s j)))
  | inr waiting ↦ elim (Bool-cases (leb kb_buffer_size k.buffer_pos)) [
    | inl full ↦
        let at_end : k.buffer_pos ≡ kb_buffer_size = ground (arith, full) in
        subst (KeyEnd k s c) (sym (key_char-full k s c waiting at_end)) (no_room waiting at_end)
    | inr left ↦
        let room : k.buffer_pos < kb_buffer_size = ground (arith, left) in
        subst (KeyEnd k s c) (sym (key_char-buffer k s c waiting room))
          (buffered _ waiting room (slots-put k.buffer k.buffer_pos (char_of k c)))
  ]
]

kb_read-extended :
    (c : ℕ) (port : List ℕ)
    → (c == 0xE0) ≡ false
    → kb_read (0xE0 ∷ (c ∷ port)) ≡ some ((128 + c) % 256, port)
unfolding kb_read
kb_read-extended c port plain = rw (plain, kb_read) refl

-- An extended key that is pressed, code `c` below 128 behind 0xE0, is handled as the release of the
-- key of that code.
pub kb_interrupt-extended_press :
    (k : Keyboard) (s : Screen) (c : ℕ) (port : List ℕ)
    → c < 128
    → kb_interrupt k s (0xE0 ∷ c ∷ port) ≡ some (key_release k c, s, port)
unfolding kb_interrupt kb_handler
kb_interrupt-extended_press k s c port press =
    let plain : (c == 0xE0) ≡ false = ground arith in
    let code : (128 + c) % 256 ≡ 128 + c = omega arith in
    let high : leb 128 (128 + c) ≡ true = ground arith in
    let low : (128 + c) % 128 ≡ c = omega arith in
    rw (kb_read-extended c port plain, code, high, low, kb_interrupt) refl

-- An extended key that is released, code `128 + c` behind 0xE0, is handled as the press of the key
-- of code `c`, but for the code 96, which is 0xE0 itself.
pub kb_interrupt-extended_release :
    (k : Keyboard) (s : Screen) (c : ℕ) (port : List ℕ)
    → c < 128
    → c ≢ 96
    → kb_interrupt k s (0xE0 ∷ ((128 + c) ∷ port))
      ≡ some ((kb_handler k s c).0, (kb_handler k s c).1, port)
unfolding kb_interrupt
kb_interrupt-extended_release k s c port press other =
    let plain : (128 + c == 0xE0) ≡ false = ne→== _ _ (λ e. other (omega arith)) in
    let code : (128 + (128 + c)) % 256 ≡ c = omega arith in
    rw (kb_read-extended (128 + c) port plain, code, kb_interrupt) refl
