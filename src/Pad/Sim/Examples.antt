-- ===== src/Pad/Sim/Examples.antt =====
-- The guide button.
use couchlink.Base.{◌≡◌, some}
use couchlink.Pad.Buttons.{controls}
use couchlink.Pad.Sim.{
  ps, xbox_press, xbox_legacy_press, dualsense_usb_press, switch_press, steam_press, pad_bit,
}
use couchlink.Pad.Sim.Presses.{press-parsed}
use couchlink.Pad.Parse.{parse_input_report}
use couchlink.Pad.ParseXbox.{parse_xbox_input_report}
use couchlink.Pad.ParseSwitch.{parse_switch_input_report}
use couchlink.Pad.ParseSteam.{parse_steam_input_report}

press-parsed_example :
    (parse_input_report (dualsense_usb_press ps) ≡ some (controls 0x1000 128 128 128 128 0 0))
    × (parse_xbox_input_report (xbox_press ps) ≡ some (controls 0x1000 128 128 128 128 0 0))
    × (parse_xbox_input_report (xbox_legacy_press ps) ≡ some (controls 0 128 128 128 128 0 0))
    × (parse_switch_input_report (switch_press ps) ≡ some (controls 0x1000 128 128 128 128 0 0))
    × (parse_steam_input_report (steam_press ps) ≡ some (controls 0x1000 128 128 128 128 0 0))
unfolding pad_bit
press-parsed_example = press-parsed ps
