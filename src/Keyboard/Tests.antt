-- ===== src/Keyboard/Tests.antt =====
-- The keyboard at concrete scancodes.
use info.Prelude.{ℕ, ◌≡◌, refl, true, false, some, List, [], ◌∷◌, arith, ◌==◌, if◌then◌else◌}
use info.Keyboard.{
  InputQueue, Keyboard, init, insert, process_scancode, scancode_to_char, handler, type_key,
  apply_caps, apply_ctrl, keymap_char,
}
use info.Keyboard.Queue.{IsValid, contents, enqueue, init-IsValid, insert-IsValid}
use info.Keyboard.Decode.{handler-IsValid, scancode_to_char_lem}

abbrev boot : Keyboard
boot = record {
  shift_pressed = false;
  ctrl_pressed = false;
  alt_pressed = false;
  caps_lock = false;
  has_callback = true;
  queue = init;
}

-- `ctrl` and `alt` are held.
abbrev held : Keyboard
held = record boot { ctrl_pressed = true; alt_pressed = true }

-- Shift down, `a`, shift up, `b`.
abbrev typing : List ℕ
typing = 0x2A ∷ 0x1E ∷ 0x9E ∷ 0xAA ∷ 0x30 ∷ 0xB0 ∷ []

typed : contents (handler typing boot).queue ≡ b'A' ∷ b'b' ∷ []
unfolding handler process_scancode type_key init insert apply_caps apply_ctrl keymap_char
typed = refl

-- F7 asks for a seventh terminal.
seventh : (process_scancode 0x41 held).1 ≡ some 7
unfolding process_scancode
seventh = refl

two : InputQueue
two = insert b'b' (insert b'a' init)

two-IsValid : IsValid two
unfolding two
two-IsValid = insert-IsValid b'b' (insert-IsValid b'a' init-IsValid)

handler-IsValid_example : IsValid (handler typing boot).queue
handler-IsValid_example = handler-IsValid typing boot init-IsValid

scancode_to_char_lem_example :
    (c : ℕ) × (scancode_to_char 0x1E false false ≡ some c)
    × (contents (process_scancode 0x1E boot).0.queue
        ≡ (if c == 0 then contents init else enqueue c (contents init)))
scancode_to_char_lem_example = scancode_to_char_lem 0x1E boot init-IsValid (omega arith) refl refl
