-- ===== src/Pad/Sim/Presses.antt =====
-- What the parsers read from a simulated report.
use couchlink.Base.{ℕ, ◌≡◌, refl, some}
use couchlink.Pad.Buttons.{controls, press_dpad, press_all}
use couchlink.Pad.Sim.{
  SimButton, cross, l2, r2, ps, touch, mute, pad_bit, xbox_press, xbox_legacy_press,
  dualsense_usb_press, switch_press, steam_press,
}
use couchlink.Pad.Parse.{parse_input_report, report_body, report_frame, report_buttons}
use couchlink.Pad.ParseXbox.{parse_xbox_input_report, parse_state_packet, state_frame, press_hat}
use couchlink.Pad.ParseSwitch.{parse_switch_input_report, switch_frame}
use couchlink.Pad.ParseSteam.{parse_steam_input_report, steam_frame}

-- The bit of a button that all controllers have; the others have no touchpad click and no mute button.
abbrev pub shared_bit : SimButton → ℕ
shared_bit touch = 0
shared_bit mute = 0
shared_bit btn = pad_bit btn

-- The first firmware of the Xbox controllers does not report the guide button here.
abbrev pub legacy_bit : SimButton → ℕ
legacy_bit ps = 0
legacy_bit btn = shared_bit btn

abbrev pub left_trigger : SimButton → ℕ
left_trigger l2 = 255
left_trigger btn = 0

abbrev pub right_trigger : SimButton → ℕ
right_trigger r2 = 255
right_trigger btn = 0

-- For every button, the parser of each controller reads its simulated press as just this button, with the
-- sticks at rest and with the trigger pulled where it has one: the DualSense reads all; the others do not
-- have the touchpad click and the mute button, nor the older Xbox report the guide button.
pub press-parsed :
    (btn : SimButton)
    → (parse_input_report (dualsense_usb_press btn)
        ≡ some (controls (pad_bit btn) 128 128 128 128 (left_trigger btn) (right_trigger btn)))
      × (parse_xbox_input_report (xbox_press btn)
          ≡ some (controls (shared_bit btn) 128 128 128 128 (left_trigger btn) (right_trigger btn)))
      × (parse_xbox_input_report (xbox_legacy_press btn)
          ≡ some (controls (legacy_bit btn) 128 128 128 128 (left_trigger btn) (right_trigger btn)))
      × (parse_switch_input_report (switch_press btn)
          ≡ some (controls (shared_bit btn) 128 128 128 128 0 0))
      × (parse_steam_input_report (steam_press btn)
          ≡ some (controls (shared_bit btn) 128 128 128 128 (left_trigger btn) (right_trigger btn)))
unfolding pad_bit dualsense_usb_press xbox_press xbox_legacy_press switch_press steam_press
    parse_input_report report_body report_frame report_buttons parse_xbox_input_report
    parse_state_packet state_frame press_hat parse_switch_input_report switch_frame
    parse_steam_input_report steam_frame press_dpad press_all
press-parsed cross = (refl, refl, refl, refl, refl)
press-parsed btn = (refl, refl, refl, refl, refl)
