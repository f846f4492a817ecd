-- ===== src/Keyboard.antt =====
-- drivers/tty/keyboard.cc and include/kernel/keyboard.h: the scancode decoder and the input queue.
-- The modifier flags, the queue and the registered callback are one state; the lock calls of
-- `Peek` guard nothing that a single caller sees, and the port reads and writes of the interrupt
-- handler are left out, so `handler` is given the scancode.
pub mod Keymap
pub mod Queue
pub mod Decode
mod Tests
use info.Prelude.{
  ℕ, zero, suc, ◌+◌, ◌-◌, ◌%◌, ◌≤◌, Bool, true, false, not, ◌&&◌, ◌||◌, Option, none, some, List,
  [], ◌∷◌, ltb, leb, ◌==◌, if◌then◌else◌, get_or, set, replicate, length,
}
use Keymap.{keymap_normal, keymap_shift}

-- `KBD_BUFFER_SIZE`
abbrev pub buffer_size : ℕ
buffer_size = 128

-- `NUM_TTYS`
abbrev pub num_ttys : ℕ
num_ttys = 6

-- `InputQueue`
pub record InputQueue : Type 0 where
  pub buffer : List ℕ
  pub head : ℕ
  pub tail : ℕ
  pub count : ℕ

-- `InputQueue::Init`, and the constructor
pub init : InputQueue
init = record { buffer = replicate buffer_size 0; head = 0; tail = 0; count = 0 }

-- `InputQueue::Insert`
pub insert : ℕ → InputQueue → InputQueue
insert c q =
    if ltb q.count (buffer_size - 1)
    then record q {
      buffer = set q.buffer q.tail c;
      tail = (q.tail + 1) % buffer_size;
      count = q.count + 1;
    }
    else q

-- `head = (head + 1) % KBD_BUFFER_SIZE; count--`, which `Peek` and `ReadBuffer` share.
abbrev pub advance : InputQueue → InputQueue
advance q = record q { head = (q.head + 1) % buffer_size; count = q.count - 1 }

-- `InputQueue::Peek`: the option is `*c` with the result `true`, and `none` the result `false`.
pub peek : InputQueue → Option ℕ × InputQueue
peek q = if q.count == 0 then (none, q) else (some (get_or q.buffer q.head 0), advance q)

-- `InputQueue::HasData`
pub has_data : InputQueue → Bool
has_data q = ltb 0 q.count

-- `InputQueue::ReadBuffer`: the bytes written to `buf`, in order. The first number is what the loop
-- has left of `size`.
pub read_buffer : ℕ → InputQueue → List ℕ × InputQueue
read_buffer zero q = ([], q)
read_buffer (suc room) q =
    let rest = read_buffer room (advance q) in
    if ltb 0 q.count then (get_or q.buffer q.head 0 ∷ rest.0, rest.1) else ([], q)

-- The module's globals.
pub record Keyboard : Type 0 where
  pub shift_pressed : Bool
  pub ctrl_pressed : Bool
  pub alt_pressed : Bool
  pub caps_lock : Bool
  pub has_callback : Bool
  pub queue : InputQueue

-- `keyboard::SetTTYSwitchCallback`, with a callback that is not null or one that is.
unfoldable pub set_tty_switch_callback : Bool → Keyboard → Keyboard
set_tty_switch_callback given k = record k { has_callback = given }

-- The letters of the keymap in upper case, for a locked or shifted keyboard.
pub apply_caps : Bool → Bool → ℕ → ℕ
apply_caps caps shift c = if leb b'a' c && leb c b'z' && (caps || shift) then c - b'a' + b'A' else c

-- The control characters.
pub apply_ctrl : Bool → ℕ → ℕ
apply_ctrl ctrl c =
    if not ctrl
    then c
    else if leb b'a' c && leb c b'z'
    then c - b'a' + 1
    else if c == b'['
    then 0x1B
    else if c == 0x5C
    then 0x1C
    else if c == b']'
    then 0x1D
    else if c == b'/'
    then 0x1F
    else if c == b'3'
    then 0x1B
    else c

-- `keymap[code]` for the two tables, which have one size.
pub keymap_char : Bool → ℕ → ℕ
keymap_char shift code = get_or (if shift then keymap_shift else keymap_normal) code 0

-- The part of `ProcessScancode` below the callback: the key's character goes into the queue.
pub type_key : ℕ → Keyboard → Keyboard
type_key code k =
    let c = keymap_char k.shift_pressed code in
    if c == 0 then k else record k {
      queue = insert (apply_ctrl k.ctrl_pressed (apply_caps k.caps_lock k.shift_pressed c)) k.queue;
    }

-- `InputQueue::ProcessScancode`: the new state, and the terminal with which the callback is called.
pub process_scancode : ℕ → Keyboard → Keyboard × Option ℕ
process_scancode sc k =
    let release = leb 0x80 sc in
    let code = sc % 0x80 in
    if leb (length keymap_normal) code
    then (k, none)
    else if code == 0x2A || code == 0x36
    then (record k { shift_pressed = not release }, none)
    else if code == 0x1D
    then (record k { ctrl_pressed = not release }, none)
    else if code == 0x38
    then (record k { alt_pressed = not release }, none)
    else if code == 0x3A
    then (record k { caps_lock = if release then k.caps_lock else not k.caps_lock }, none)
    else if release
    then (k, none)
    else if k.has_callback
        && k.alt_pressed
        && k.ctrl_pressed
        && leb 0x3B code
        && leb code (0x3B + num_ttys)
    then (k, some (code - 0x3B + 1))
    else (type_key code k, none)

-- `InputQueue::ScancodeToChar`. The guard lets through scancodes behind the end of the tables;
-- `none` is such a read out of bounds.
pub scancode_to_char : ℕ → Bool → Bool → Option ℕ
scancode_to_char scancode shift caps =
    if ltb 0x7F scancode
    then some 0
    else if leb (length keymap_normal) scancode
    then none
    else let c = keymap_char shift scancode in
      if c == 0 then some 0 else some (apply_caps caps shift c)

-- `kbd_handler_c` on a sequence of interrupts.
pub handler : List ℕ → Keyboard → Keyboard
handler [] k = k
handler (sc ∷ scs) k = handler scs (process_scancode sc k).0
