-- ===== src/Pad/Buttons.antt =====
-- The button bits of a pad frame (module `buttons` of crates/proto/src/pad_frame.rs), and the tests by
-- which the parsers of crates/pad set them.
pub mod Digits
use couchlink.Proto.PadFrame.{PadFrame}
use couchlink.Proto.Buffer.{Bytes}
use couchlink.Base.{
  ◌+◌, ◌*◌, get_or, Bool, ℕ, List, [], ◌∷◌, not, ◌==◌, if◌then◌else◌, bit_and, bit_or,
}

abbrev pub square : ℕ
square = 0x1

abbrev pub cross : ℕ
cross = 0x2

abbrev pub circle : ℕ
circle = 0x4

abbrev pub triangle : ℕ
triangle = 0x8

abbrev pub l1 : ℕ
l1 = 0x10

abbrev pub r1 : ℕ
r1 = 0x20

abbrev pub l2 : ℕ
l2 = 0x40

abbrev pub r2 : ℕ
r2 = 0x80

abbrev pub create : ℕ
create = 0x100

abbrev pub options : ℕ
options = 0x200

abbrev pub l3 : ℕ
l3 = 0x400

abbrev pub r3 : ℕ
r3 = 0x800

abbrev pub ps : ℕ
ps = 0x1000

abbrev pub touch : ℕ
touch = 0x2000

abbrev pub mute : ℕ
mute = 0x4000

abbrev pub dpad_up : ℕ
dpad_up = 0x1_0000

abbrev pub dpad_down : ℕ
dpad_down = 0x2_0000

abbrev pub dpad_left : ℕ
dpad_left = 0x4_0000

abbrev pub dpad_right : ℕ
dpad_right = 0x8_0000

-- `byte & mask != 0`
abbrev pub is_set : ℕ → ℕ → Bool
is_set byte mask = not (bit_and byte mask == 0)

-- `if byte & mask != 0 { buttons |= bit }`
unfoldable pub press : ℕ → ℕ → ℕ → ℕ → ℕ
press byte mask bit buttons = if is_set byte mask then bit_or buttons bit else buttons

-- `if test { buttons |= bit }`
abbrev pub press_if : Bool → ℕ → ℕ → ℕ
press_if test bit buttons = if test then bit_or buttons bit else buttons

-- A run of such tests of a byte, first to last; a row has the byte, the mask and the bit.
unfoldable pub press_all : List (ℕ × ℕ × ℕ) → ℕ → ℕ
unfolding press
press_all [] buttons = buttons
press_all ((byte, mask, bit) ∷ rows) buttons = press_all rows (press byte mask bit buttons)

-- The match of the Sony parsers on the direction of the pad, from 0 (up) clockwise.
unfoldable pub press_dpad : ℕ → ℕ → ℕ
press_dpad dpad buttons =
    if dpad == 0
    then bit_or buttons dpad_up
    else if dpad == 1
    then bit_or buttons (bit_or dpad_up dpad_right)
    else if dpad == 2
    then bit_or buttons dpad_right
    else if dpad == 3
    then bit_or buttons (bit_or dpad_down dpad_right)
    else if dpad == 4
    then bit_or buttons dpad_down
    else if dpad == 5
    then bit_or buttons (bit_or dpad_down dpad_left)
    else if dpad == 6
    then bit_or buttons dpad_left
    else if dpad == 7
    then bit_or buttons (bit_or dpad_up dpad_left)
    else buttons

-- `u16::from_le_bytes` of the bytes at `i` and `i + 1`.
abbrev pub u16_at : Bytes → ℕ → ℕ
u16_at bs i = get_or bs i 0 + 256 * get_or bs (i + 1) 0

-- A frame with these controls and all else at rest.
abbrev pub controls : ℕ → ℕ → ℕ → ℕ → ℕ → ℕ → ℕ → PadFrame
controls buttons lx ly rx ry l2 r2 = record {
  seq = 0;
  buttons = buttons;
  lx = lx;
  ly = ly;
  rx = rx;
  ry = ry;
  l2 = l2;
  r2 = r2;
  gx = 0;
  gy = 0;
  gz = 0;
  touch_active = 0;
  touch_x = 0;
  touch_y = 0;
  client_ts_ms = 0;
}
