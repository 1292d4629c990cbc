-- ===== src/Pad/Sim.antt =====
-- crates/pad/src/sim.rs: simulated input reports of the controllers, for tests of the way from a button to a
-- pad frame without a controller.
pub mod Presses
mod Examples
use couchlink.Base.{
  ◌/◌, ◌%◌, ◌+◌, ℕ, List, [], ◌∷◌, ◌++◌, Bool, true, false, bit_and, bit_or, get_or, set, take,
  replicate,
}
use couchlink.Proto.Buffer.{Bytes, le_bytes}
use couchlink.Pad.Buttons
use couchlink.Pad.Parse.{input_usb, input_bt}
use couchlink.Pad.ParseXbox.{xbox_report_id}
use couchlink.Pad.ParseSwitch.{switch_report_id}
use couchlink.Pad.ParseSteam.{steam_report_id}

pub data SimButton : Type 0 where
  cross circle square triangle l1 r1 l2 r2 create options l3 r3 ps touch mute dpad_up dpad_down
        dpad_left dpad_right :
      SimButton

unfoldable pub pad_bit : SimButton → ℕ
pad_bit cross = Buttons.cross
pad_bit circle = Buttons.circle
pad_bit square = Buttons.square
pad_bit triangle = Buttons.triangle
pad_bit l1 = Buttons.l1
pad_bit r1 = Buttons.r1
pad_bit l2 = Buttons.l2
pad_bit r2 = Buttons.r2
pad_bit create = Buttons.create
pad_bit options = Buttons.options
pad_bit l3 = Buttons.l3
pad_bit r3 = Buttons.r3
pad_bit ps = Buttons.ps
pad_bit touch = Buttons.touch
pad_bit mute = Buttons.mute
pad_bit dpad_up = Buttons.dpad_up
pad_bit dpad_down = Buttons.dpad_down
pad_bit dpad_left = Buttons.dpad_left
pad_bit dpad_right = Buttons.dpad_right

-- `raw[i] |= mask`
abbrev pub press_bit : ℕ → ℕ → Bytes → Bytes
press_bit i mask raw = set raw i (bit_or (get_or raw i 0) mask)

-- `raw[i..i + 2].copy_from_slice(&v.to_le_bytes())`
abbrev pub put_u16 : ℕ → ℕ → Bytes → Bytes
put_u16 i v raw = set (set raw i (v % 256)) (i + 1) (v / 256 % 256)

abbrev pub centre_sticks : Bytes → Bytes
centre_sticks raw = put_u16 7 0x8000 (put_u16 5 0x8000 (put_u16 3 0x8000 (put_u16 1 0x8000 raw)))

unfoldable pub xbox_neutral_report : Bytes
xbox_neutral_report = centre_sticks (set (replicate 17 0) 0 xbox_report_id)

unfoldable pub xbox_legacy_neutral_report : Bytes
xbox_legacy_neutral_report = centre_sticks (set (replicate 16 0) 0 xbox_report_id)

unfoldable pub dualsense_usb_neutral_report : Bytes
dualsense_usb_neutral_report =
    set (set (set (set (set (set (replicate 64 0) 0 input_usb) 1 128) 2 128) 3 128) 4 128) 8 0x08

unfoldable pub dualsense_bt_neutral_report : Bytes
dualsense_bt_neutral_report =
    set
      (set (set (set (set (set (set (replicate 78 0) 0 input_bt) 1 0x01) 2 128) 3 128) 4 128) 5 128)
      9 0x08

unfoldable pub xbox_press : SimButton → Bytes
unfolding xbox_neutral_report
xbox_press cross = press_bit 14 0x01 xbox_neutral_report
xbox_press circle = press_bit 14 0x02 xbox_neutral_report
xbox_press square = press_bit 14 0x04 xbox_neutral_report
xbox_press triangle = press_bit 14 0x08 xbox_neutral_report
xbox_press l1 = press_bit 14 0x10 xbox_neutral_report
xbox_press r1 = press_bit 14 0x20 xbox_neutral_report
xbox_press l2 = put_u16 9 1023 xbox_neutral_report
xbox_press r2 = put_u16 11 1023 xbox_neutral_report
xbox_press create = press_bit 14 0x40 xbox_neutral_report
xbox_press options = press_bit 14 0x80 xbox_neutral_report
xbox_press l3 = press_bit 15 0x20 xbox_neutral_report
xbox_press r3 = press_bit 15 0x40 xbox_neutral_report
xbox_press ps = press_bit 15 0x10 xbox_neutral_report
xbox_press touch = xbox_neutral_report
xbox_press mute = xbox_neutral_report
xbox_press dpad_up = set xbox_neutral_report 13 1
xbox_press dpad_down = set xbox_neutral_report 13 5
xbox_press dpad_left = set xbox_neutral_report 13 7
xbox_press dpad_right = set xbox_neutral_report 13 3

unfoldable pub xbox_legacy_press : SimButton → Bytes
unfolding xbox_legacy_neutral_report xbox_press
xbox_legacy_press l3 = press_bit 15 0x01 xbox_legacy_neutral_report
xbox_legacy_press r3 = press_bit 15 0x02 xbox_legacy_neutral_report
xbox_legacy_press btn = take 16 (xbox_press btn)

-- `raw[8] = (raw[8] & 0xF0) | dir`
abbrev pub press_dir : ℕ → Bytes → Bytes
press_dir dir raw = set raw 8 (bit_or (bit_and (get_or raw 8 0) 0xF0) dir)

unfoldable pub dualsense_usb_press : SimButton → Bytes
unfolding dualsense_usb_neutral_report
dualsense_usb_press cross = press_bit 8 0x20 dualsense_usb_neutral_report
dualsense_usb_press circle = press_bit 8 0x40 dualsense_usb_neutral_report
dualsense_usb_press square = press_bit 8 0x10 dualsense_usb_neutral_report
dualsense_usb_press triangle = press_bit 8 0x80 dualsense_usb_neutral_report
dualsense_usb_press l1 = press_bit 9 0x01 dualsense_usb_neutral_report
dualsense_usb_press r1 = press_bit 9 0x02 dualsense_usb_neutral_report
dualsense_usb_press l2 = set (press_bit 9 0x04 dualsense_usb_neutral_report) 5 255
dualsense_usb_press r2 = set (press_bit 9 0x08 dualsense_usb_neutral_report) 6 255
dualsense_usb_press create = press_bit 9 0x10 dualsense_usb_neutral_report
dualsense_usb_press options = press_bit 9 0x20 dualsense_usb_neutral_report
dualsense_usb_press l3 = press_bit 9 0x40 dualsense_usb_neutral_report
dualsense_usb_press r3 = press_bit 9 0x80 dualsense_usb_neutral_report
dualsense_usb_press ps = press_bit 10 0x01 dualsense_usb_neutral_report
dualsense_usb_press touch = press_bit 10 0x02 dualsense_usb_neutral_report
dualsense_usb_press mute = press_bit 10 0x04 dualsense_usb_neutral_report
dualsense_usb_press dpad_up = press_dir 0x00 dualsense_usb_neutral_report
dualsense_usb_press dpad_down = press_dir 0x04 dualsense_usb_neutral_report
dualsense_usb_press dpad_left = press_dir 0x06 dualsense_usb_neutral_report
dualsense_usb_press dpad_right = press_dir 0x02 dualsense_usb_neutral_report

abbrev pub centre_group : ℕ → Bytes → Bytes
centre_group off raw = set (set (set raw off 0x00) (off + 1) 0x08) (off + 2) 0x80

unfoldable pub switch_neutral_report : Bytes
switch_neutral_report = centre_group 9 (centre_group 6 (set (replicate 49 0) 0 switch_report_id))

unfoldable pub switch_press : SimButton → Bytes
unfolding switch_neutral_report
switch_press cross = press_bit 3 0x08 switch_neutral_report
switch_press circle = press_bit 3 0x04 switch_neutral_report
switch_press square = press_bit 3 0x02 switch_neutral_report
switch_press triangle = press_bit 3 0x01 switch_neutral_report
switch_press l1 = press_bit 5 0x40 switch_neutral_report
switch_press r1 = press_bit 3 0x40 switch_neutral_report
switch_press l2 = press_bit 5 0x80 switch_neutral_report
switch_press r2 = press_bit 3 0x80 switch_neutral_report
switch_press create = press_bit 4 0x01 switch_neutral_report
switch_press options = press_bit 4 0x02 switch_neutral_report
switch_press l3 = press_bit 4 0x08 switch_neutral_report
switch_press r3 = press_bit 4 0x04 switch_neutral_report
switch_press ps = press_bit 4 0x10 switch_neutral_report
switch_press touch = switch_neutral_report
switch_press mute = switch_neutral_report
switch_press dpad_up = press_bit 5 0x02 switch_neutral_report
switch_press dpad_down = press_bit 5 0x01 switch_neutral_report
switch_press dpad_left = press_bit 5 0x08 switch_neutral_report
switch_press dpad_right = press_bit 5 0x04 switch_neutral_report

unfoldable pub steam_neutral_report : Bytes
steam_neutral_report =
    put_u16 22 0
      (put_u16 20 0 (put_u16 18 0 (put_u16 16 0 (set (replicate 64 0) 0 steam_report_id))))

unfoldable pub steam_press : SimButton → Bytes
unfolding steam_neutral_report
steam_press cross = press_bit 8 0x80 steam_neutral_report
steam_press circle = press_bit 8 0x20 steam_neutral_report
steam_press square = press_bit 8 0x40 steam_neutral_report
steam_press triangle = press_bit 8 0x10 steam_neutral_report
steam_press l1 = press_bit 8 0x08 steam_neutral_report
steam_press r1 = press_bit 8 0x04 steam_neutral_report
steam_press l2 = set (press_bit 8 0x02 steam_neutral_report) 11 255
steam_press r2 = set (press_bit 8 0x01 steam_neutral_report) 12 255
steam_press create = press_bit 9 0x10 steam_neutral_report
steam_press options = press_bit 9 0x40 steam_neutral_report
steam_press l3 = press_bit 10 0x40 steam_neutral_report
steam_press r3 = press_bit 10 0x04 steam_neutral_report
steam_press ps = press_bit 9 0x20 steam_neutral_report
steam_press touch = steam_neutral_report
steam_press mute = steam_neutral_report
steam_press dpad_up = press_bit 9 0x01 steam_neutral_report
steam_press dpad_down = press_bit 9 0x08 steam_neutral_report
steam_press dpad_left = press_bit 9 0x04 steam_neutral_report
steam_press dpad_right = press_bit 9 0x02 steam_neutral_report

unfoldable pub dualsense_usb_with_sticks : (lx ly rx ry : ℕ) → Bytes
unfolding dualsense_usb_neutral_report
dualsense_usb_with_sticks lx ly rx ry =
    set (set (set (set dualsense_usb_neutral_report 1 lx) 2 ly) 3 rx) 4 ry

-- `(0x8000i32 + v as i32) as u16` on the bit pattern of an `i16`
abbrev pub centered : ℕ → ℕ
centered v = (v + 0x8000) % 65536

unfoldable pub xbox_with_sticks : (lx ly rx ry : ℕ) → Bytes
unfolding xbox_neutral_report
xbox_with_sticks lx ly rx ry = put_u16 7 (centered ry) (
    put_u16 5 (centered rx) (put_u16 3 (centered ly) (put_u16 1 (centered lx) xbox_neutral_report)))
