-- ===== src/Pad/ParseSteam.antt =====
-- crates/pad/src/parse_steam.rs: the input reports of a Steam Controller. A signed word is its bit
-- pattern.
use couchlink.Base.{
  ℕ, ◌+◌, ◌-◌, ◌/◌, ◌%◌, List, [], ◌∷◌, Option, none, some, ltb, ◌==◌, not, ◌||◌, if◌then◌else◌,
  length, get_or,
}
use couchlink.Proto.Buffer.{Bytes}
use couchlink.Proto.PadFrame.{PadFrame}
use couchlink.Pad.Buttons.{
  u16_at, press_all, press_if, is_set, controls, cross, circle, square, triangle, l1, r1, create,
  options, l2, r2, l3, r3, ps, dpad_up, dpad_down, dpad_left, dpad_right,
}

abbrev pub steam_report_id : ℕ
steam_report_id = 0x01

abbrev pub steam_min_len : ℕ
steam_min_len = 24

-- The sum with 32768 is the number from 0 on that the pattern of a signed word gives with its highest
-- bit turned.
unfoldable pub axis_to_u8 : ℕ → ℕ
axis_to_u8 v = (v + 32768) % 65536 / 256

-- `i16::wrapping_neg`
abbrev pub wrapping_neg : ℕ → ℕ
wrapping_neg v = (65536 - v) % 65536

abbrev pub steam_rows : (b8 b9 b10 : ℕ) → List (ℕ × ℕ × ℕ)
steam_rows b8 b9 b10 =
    (b8, 0x80, cross)
    ∷ (b8, 0x20, circle)
    ∷ (b8, 0x40, square)
    ∷ (b8, 0x10, triangle)
    ∷ (b8, 0x08, l1)
    ∷ (b8, 0x04, r1)
    ∷ (b9, 0x10, create)
    ∷ (b9, 0x20, ps)
    ∷ (b9, 0x40, options)
    ∷ (b9, 0x01, dpad_up)
    ∷ (b9, 0x02, dpad_right)
    ∷ (b9, 0x04, dpad_left)
    ∷ (b9, 0x08, dpad_down)
    ∷ (b10, 0x04, r3)
    ∷ (b10, 0x40, l3)
    ∷ []

unfoldable pub steam_buttons : (b8 b9 b10 l2_value r2_value : ℕ) → ℕ
steam_buttons b8 b9 b10 l2_value r2_value =
    let out = press_all (steam_rows b8 b9 b10) 0 in
    let left = press_if (ltb 0x10 l2_value || is_set b8 0x02) l2 out in
    press_if (ltb 0x10 r2_value || is_set b8 0x01) r2 left

unfoldable pub steam_frame : Bytes → PadFrame
unfolding axis_to_u8 steam_buttons
steam_frame raw =
    controls
      (steam_buttons (get_or raw 8 0) (get_or raw 9 0) (get_or raw 10 0) (get_or raw 11 0)
        (get_or raw 12 0))
      (axis_to_u8 (u16_at raw 16)) (axis_to_u8 (wrapping_neg (u16_at raw 18)))
      (axis_to_u8 (u16_at raw 20)) (axis_to_u8 (wrapping_neg (u16_at raw 22))) (get_or raw 11 0)
      (get_or raw 12 0)

unfoldable pub parse_steam_input_report : Bytes → Option PadFrame
parse_steam_input_report raw =
    if ltb (length raw) steam_min_len || not (get_or raw 0 0 == steam_report_id)
    then none
    else some (steam_frame raw)
