-- ===== src/Pad/Examples.antt =====
-- Concrete frames of the companion.
use couchlink.Base.{◌≡◌, refl, arith, List, [], ◌∷◌, replicate, length}
use couchlink.Proto.Buffer.{Bytes}
use couchlink.Proto.PadFrame.{PadFrame}
use couchlink.Pad.Buttons.{controls}
use couchlink.Pad.MapFrame.RoundTrip.{IsReadBack, parse-mapped}
use couchlink.Pad.MapFrame.{pad_frame_to_dualsense_usb_report}
use couchlink.Pad.Parse.{parse_input_report}
use couchlink.Pad.VhidProto.{encode_output}
use couchlink.Pad.VhidProto.Frames.{stream, polls, polls-delayed}

abbrev report : Bytes
report = 1 ∷ replicate 63 128

abbrev two_reports : List Bytes
two_reports = (2 ∷ 9 ∷ []) ∷ [] ∷ []

two_reports-length : length (stream two_reports) ≡ 16
unfolding encode_output
two_reports-length = refl

polls-delayed_example : polls 3 (7 ∷ 9 ∷ stream two_reports) ≡ ([] ∷ [] ∷ two_reports ∷ [], [])
polls-delayed_example =
    polls-delayed (7 ∷ 9 ∷ []) two_reports
      ((λ e. absurd (omega arith)), ((λ e. absurd (omega arith)), tt)) (λ e. cc)
      (omega arith, (omega arith, tt))

-- Up, left, cross and the triggers.
abbrev pressed : PadFrame
pressed = controls 0x5_00C2 10 20 30 40 50 60

parse-mapped_example :
    IsReadBack pressed 18 (parse_input_report (pad_frame_to_dualsense_usb_report pressed))
parse-mapped_example = parse-mapped pressed 18 refl refl (omega arith) (λ e. omega (arith, e))
