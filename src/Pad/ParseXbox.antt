-- ===== src/Pad/ParseXbox.antt =====
-- crates/pad/src/parse_xbox.rs: the input reports of Xbox One and Series controllers.
use couchlink.Base.{
  ℕ, ◌/◌, List, [], ◌∷◌, Option, none, some, Bool, ltb, ◌==◌, if◌then◌else◌, length, get_or,
  bit_and, bit_or, min,
}
use couchlink.Proto.Buffer.{Bytes}
use couchlink.Proto.PadFrame.{PadFrame}
use couchlink.Pad.Buttons.{
  u16_at, press_all, press_if, is_set, controls, cross, circle, square, triangle, l1, r1, create,
  options, l2, r2, l3, r3, ps, dpad_up, dpad_down, dpad_left, dpad_right,
}

abbrev pub xbox_report_id : ℕ
xbox_report_id = 0x01

abbrev pub xbox_guide_report_id : ℕ
xbox_guide_report_id = 0x02

abbrev pub min_body_len : ℕ
min_body_len = 15

abbrev pub neutral_frame : ℕ → PadFrame
neutral_frame buttons = controls buttons 128 128 128 128 0 0

unfoldable pub stick_to_u8 : ℕ → ℕ
stick_to_u8 v = v / 256

unfoldable pub trigger_to_u8 : ℕ → ℕ
trigger_to_u8 v = min v 1023 / 4

abbrev pub first_rows : ℕ → List (ℕ × ℕ × ℕ)
first_rows a =
    (a, 0x01, cross)
    ∷ (a, 0x02, circle)
    ∷ (a, 0x04, square)
    ∷ (a, 0x08, triangle)
    ∷ (a, 0x10, l1)
    ∷ (a, 0x20, r1)
    ∷ (a, 0x40, create)
    ∷ (a, 0x80, options)
    ∷ []

-- The second byte in the report of the first firmware, and in that of the later ones.
abbrev pub legacy_rows : ℕ → List (ℕ × ℕ × ℕ)
legacy_rows b = (b, 0x01, l3) ∷ (b, 0x02, r3) ∷ []

abbrev pub unified_rows : ℕ → ℕ → List (ℕ × ℕ × ℕ)
unified_rows b c =
    (b, 0x04, create)
    ∷ (b, 0x08, options)
    ∷ (b, 0x10, ps)
    ∷ (b, 0x20, l3)
    ∷ (b, 0x40, r3)
    ∷ (c, 0x01, create)
    ∷ []

-- The match on the hat, from 1 (up) clockwise; 0 is released.
unfoldable pub press_hat : ℕ → ℕ → ℕ
press_hat hat buttons =
    if hat == 1
    then bit_or buttons dpad_up
    else if hat == 2
    then bit_or buttons (bit_or dpad_up dpad_right)
    else if hat == 3
    then bit_or buttons dpad_right
    else if hat == 4
    then bit_or buttons (bit_or dpad_down dpad_right)
    else if hat == 5
    then bit_or buttons dpad_down
    else if hat == 6
    then bit_or buttons (bit_or dpad_down dpad_left)
    else if hat == 7
    then bit_or buttons dpad_left
    else if hat == 8
    then bit_or buttons (bit_or dpad_up dpad_left)
    else buttons

unfoldable pub xbox_buttons : Bool → (hat a b c l2_value r2_value : ℕ) → ℕ
xbox_buttons is_legacy hat a b c l2_value r2_value =
    let face = press_all (first_rows a) 0 in
    let system =
      if is_legacy then press_all (legacy_rows b) face else press_all (unified_rows b c) face in
    let left = press_if (ltb 0x10 l2_value) l2 system in
    press_hat hat (press_if (ltb 0x10 r2_value) r2 left)

unfoldable pub state_frame : Bytes → PadFrame
unfolding stick_to_u8 trigger_to_u8 xbox_buttons
state_frame body =
    let left = trigger_to_u8 (u16_at body 8) in
    let right = trigger_to_u8 (u16_at body 10) in
    controls
      (xbox_buttons (length body == 15) (bit_and (get_or body 12 0) 0x0F) (get_or body 13 0)
        (get_or body 14 0) (get_or body 15 0) left right)
      (stick_to_u8 (u16_at body 0)) (stick_to_u8 (u16_at body 2)) (stick_to_u8 (u16_at body 4))
      (stick_to_u8 (u16_at body 6)) left right

unfoldable pub parse_state_packet : Bytes → Option PadFrame
parse_state_packet body = if ltb (length body) min_body_len then none else some (state_frame body)

unfoldable pub parse_xbox_input_report : Bytes → Option PadFrame
parse_xbox_input_report [] = none
parse_xbox_input_report (id ∷ []) = none
parse_xbox_input_report (id ∷ b ∷ bs) =
    if id == xbox_report_id
    then parse_state_packet (b ∷ bs)
    else if id == xbox_guide_report_id
    then some (neutral_frame (press_if (is_set b 0x01) ps 0))
    else none
