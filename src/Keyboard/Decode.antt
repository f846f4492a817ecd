-- ===== src/Keyboard/Decode.antt =====
-- What the decoder makes of scancodes.
use info.Prelude.{
  ℕ, ◌+◌, ◌%◌, ◌≤◌, ◌<◌, ◌≡◌, refl, ap, ◌∙◌, ◌↔◌, Bool, true, false, not, ◌||◌, none, some, List,
  [], ◌∷◌, arith, ◌==◌, if◌then◌else◌,
}
use info.Keyboard.{
  Keyboard, num_ttys, apply_caps, apply_ctrl, keymap_char, type_key, process_scancode,
  scancode_to_char, handler,
}
use info.Keyboard.Queue.{IsValid, insert-IsValid, contents, enqueue, insert_lem}

type_key-IsValid : (code : ℕ) (k : Keyboard) → IsValid k.queue → IsValid (type_key code k).queue
unfolding type_key
type_key-IsValid code k v =
    let c =
      apply_ctrl k.ctrl_pressed
        (apply_caps k.caps_lock k.shift_pressed (keymap_char k.shift_pressed code)) in
    ground (arith, insert-IsValid c v)

process_scancode-IsValid :
    (sc : ℕ) (k : Keyboard) → IsValid k.queue → IsValid (process_scancode sc k).0.queue
unfolding process_scancode
process_scancode-IsValid sc k v = ground (arith, type_key-IsValid (sc % 0x80) k v)

-- Any sequence of keyboard interrupts keeps the input queue valid: its indices in range and its
-- tail where head and count say.
pub handler-IsValid :
    (scs : List ℕ) (k : Keyboard) → IsValid k.queue → IsValid (handler scs k).queue
unfolding handler
handler-IsValid [] k v = v
handler-IsValid (sc ∷ scs) k v =
    handler-IsValid scs (process_scancode sc k).0 (process_scancode-IsValid sc k v)

-- A key release puts nothing in the queue and calls no callback.
release_lem :
    (sc : ℕ) (k : Keyboard)
    → 0x80 ≤ sc
    → ((process_scancode sc k).0.queue ≡ k.queue) × ((process_scancode sc k).1 ≡ none)
unfolding process_scancode
release_lem sc k h = ground arith

-- The terminal callback is called only if it is set and ctrl and alt are held, with the number n
-- for the scancode n + 0x3A, from 1 to one more than there are terminals, and then nothing else
-- happens.
callback_lem :
    (sc n : ℕ) (k : Keyboard)
    → sc < 0x100
    → (process_scancode sc k).1 ≡ some n
    → (k.has_callback ≡ true)
      × (k.alt_pressed ≡ true)
      × (k.ctrl_pressed ≡ true)
      × (sc ≡ n + 0x3A)
      × (1 ≤ n)
      × (n ≤ num_ttys + 1)
      × ((process_scancode sc k).0 ≡ k)
unfolding process_scancode
callback_lem sc n k b h = ground arith

apply_caps_zero : (caps shift : Bool) (c : ℕ) → (apply_caps caps shift c == 0) ≡ (c == 0)
unfolding apply_caps
apply_caps_zero caps shift c = ground arith

apply_caps-zero : (caps shift : Bool) → apply_caps caps shift 0 ≡ 0
unfolding apply_caps
apply_caps-zero caps shift = ground arith

abbrev pub is_modifier : ℕ → Bool
is_modifier sc = sc == 0x2A || sc == 0x36 || sc == 0x1D || sc == 0x38 || sc == 0x3A

type_key_lem :
    (sc c : ℕ) (k : Keyboard)
    → IsValid k.queue
    → k.ctrl_pressed ≡ false
    → c ≡ apply_caps k.caps_lock k.shift_pressed (keymap_char k.shift_pressed sc)
    → contents (type_key sc k).queue
      ≡ (if c == 0 then contents k.queue else enqueue c (contents k.queue))
unfolding type_key apply_ctrl
type_key_lem sc c k v off e =
    let known = keymap_char k.shift_pressed sc in
    ground (arith, apply_caps_zero k.caps_lock k.shift_pressed known, insert_lem c v)

scancode_to_char-some :
    (sc : ℕ) (shift caps : Bool)
    → sc < 88
    → scancode_to_char sc shift caps ≡ some (apply_caps caps shift (keymap_char shift sc))
unfolding scancode_to_char
scancode_to_char-some sc shift caps b = ground (arith, apply_caps-zero caps shift)

process_scancode-key :
    (sc : ℕ) (k : Keyboard)
    → sc < 88
    → k.ctrl_pressed ≡ false
    → is_modifier sc ≡ false
    → (process_scancode sc k).0 ≡ type_key sc k
unfolding process_scancode
process_scancode-key sc k b off m = let e : sc % 0x80 ≡ sc = omega arith in rw e (ground arith)

-- For a scancode of the tables that is no modifier, with ctrl up and a valid queue,
-- ScancodeToChar gives a character c, and ProcessScancode adds exactly c to the queue, or
-- nothing if c is 0.
pub scancode_to_char_lem :
    (sc : ℕ) (k : Keyboard)
    → IsValid k.queue
    → sc < 88
    → k.ctrl_pressed ≡ false
    → is_modifier sc ≡ false
    → (c : ℕ) × (scancode_to_char sc k.shift_pressed k.caps_lock ≡ some c)
      × (contents (process_scancode sc k).0.queue
          ≡ (if c == 0 then contents k.queue else enqueue c (contents k.queue)))
scancode_to_char_lem sc k v b off m = (
  apply_caps k.caps_lock k.shift_pressed (keymap_char k.shift_pressed sc),
  scancode_to_char-some sc k.shift_pressed k.caps_lock b,
  rw (process_scancode-key sc k b off m) (type_key_lem sc _ k v off refl),
)

-- ScancodeToChar reads outside its tables exactly for the scancodes from 88 to 127.
scancode_to_char_bounds :
    (sc : ℕ) (shift caps : Bool)
    → (scancode_to_char sc shift caps ≡ none) ↔ ((88 ≤ sc) × (sc < 0x80))
unfolding scancode_to_char
scancode_to_char_bounds sc shift caps = (λ h. ground arith, λ h. ground arith)

-- How many times `caps lock` goes down.
unfoldable pub caps_presses : List ℕ → ℕ
caps_presses [] = 0
caps_presses (sc ∷ scs) = caps_presses scs + (if sc == 0x3A then 1 else 0)

abbrev pub is_odd : ℕ → Bool
is_odd n = n % 2 == 1

process_scancode-caps :
    (sc : ℕ) (k : Keyboard)
    → sc < 0x100
    → (process_scancode sc k).0.caps_lock ≡ (if sc == 0x3A then not k.caps_lock else k.caps_lock)
unfolding process_scancode type_key
process_scancode-caps sc k b = ground arith

abbrev pub Bytes : List ℕ → Type 0
Bytes [] = Unit {0}
Bytes (sc ∷ scs) = (sc < 0x100) × Bytes scs

flip_by : ℕ → Bool → Bool
flip_by n b = if is_odd n then not b else b

flip_by-press :
    (n : ℕ) (press b : Bool)
    → flip_by n (if press then not b else b) ≡ flip_by (n + (if press then 1 else 0)) b
unfolding flip_by
flip_by-press n press b = ground arith

-- After any sequence of one-byte scancodes, caps lock has changed exactly if its key went down
-- an odd number of times.
handler-caps_lock :
    (scs : List ℕ) (k : Keyboard)
    → Bytes scs
    → (handler scs k).caps_lock
      ≡ (if is_odd (caps_presses scs) then not k.caps_lock else k.caps_lock)
unfolding handler caps_presses flip_by
handler-caps_lock [] k b = refl
handler-caps_lock (sc ∷ scs) k b =
    handler-caps_lock scs (process_scancode sc k).0 b.1
    ∙ ap (flip_by (caps_presses scs)) (process_scancode-caps sc k b.0)
    ∙ flip_by-press (caps_presses scs) (sc == 0x3A) k.caps_lock
