-- ===== src/Pad/MapFrame/RoundTrip.antt =====
-- What the parser of a DualSense's reports reads from the report that a frame is mapped to.
use couchlink.Base.{
  ◌≤◌, ℕ, ◌^◌, ◌<◌, ◌≡◌, ◌≢◌, refl, ◌∙◌, ap, arith, List, Option, none, some, false, ◌&&◌,
  if◌then◌else◌, bit_and, max,
}
use couchlink.Base.Digits.{AllBelow-at, digit-above, AllBelow, digit-zero, digit}
use couchlink.Proto.PadFrame.{PadFrame}
use couchlink.Pad.Buttons.{dpad_left, dpad_down, dpad_right, dpad_up, is_set, press_all, press_dpad}
use couchlink.Pad.Buttons.Digits.{set_digit, row_digit, digit-press_all, bit_and-15, low_digits}
use couchlink.Pad.MapFrame.Directions.{
  dpad_bits, dpad-sets, dpad_bits-low, nibble_of-lt, dpad_bits-digits,
}
use couchlink.Pad.Parse.{report_rows, parse_input_report, report_body, report_frame, report_buttons}
use couchlink.Pad.MapFrame.{
  high_rows, extra_rows, low_rows, dpad_nibble, low_buttons, high_buttons, extra_buttons,
  pad_frame_to_dualsense_usb_report,
}

-- The buttons that are read from the report of the buttons `b`.
abbrev read : ℕ → ℕ
read b = report_buttons (low_buttons b) (high_buttons b) (extra_buttons b)

-- The direction comes back from the low half of its byte.
low-nibble : (b : ℕ) → bit_and (low_buttons b) 0x0F ≡ dpad_nibble b
unfolding low_buttons digit dpad_nibble
low-nibble b =
    let n = dpad_nibble b in
    omega (
      arith,
      bit_and-15 (low_buttons b),
      low_digits (low_buttons b),
      low_digits n,
      digit-press_all (low_rows b) n 0,
      digit-press_all (low_rows b) n 1,
      digit-press_all (low_rows b) n 2,
      digit-press_all (low_rows b) n 3,
      nibble_of-lt (is_set b dpad_up) (is_set b dpad_down) (is_set b dpad_left)
          (is_set b dpad_right),
    )

abbrev direction : ℕ → ℕ
direction b =
    dpad_bits (is_set b dpad_up) (is_set b dpad_down) (is_set b dpad_left) (is_set b dpad_right)

abbrev rows_read : ℕ → List (ℕ × ℕ × ℕ)
rows_read b = report_rows (low_buttons b) (high_buttons b) (extra_buttons b)

read-step :
    (b k : ℕ)
    → digit (read b) k ≡ max (max (digit 0 k) (row_digit (rows_read b) k)) (digit (direction b) k)
unfolding report_buttons dpad_nibble
read-step b k =
    ap (λ n. digit (press_dpad n (press_all (rows_read b) 0)) k) (low-nibble b)
    ∙ dpad-sets (is_set b dpad_up) (is_set b dpad_down) (is_set b dpad_left) (is_set b dpad_right)
        (press_all (rows_read b) 0) k
    ∙ ap (λ m. max m (digit (direction b) k)) (digit-press_all (rows_read b) 0 k)

read-low :
    (b k : ℕ) → k < 16 → digit (read b) k ≡ max (max (digit 0 k) (row_digit (rows_read b) k)) 0
read-low b k lt =
    read-step b k
    ∙ ap (λ m. max (max (digit 0 k) (row_digit (rows_read b) k)) m)
        (dpad_bits-low (is_set b dpad_up) (is_set b dpad_down) (is_set b dpad_left)
          (is_set b dpad_right) k lt)

-- One button: its bit in the byte, and that bit back.
button :
    (b byte out j k acc : ℕ)
    → digit out k ≡ max (max 0 (max (if is_set byte (2 ^ j) then 1 else 0) 0)) 0
    → digit byte j ≡ max acc (max (if is_set b (2 ^ k) then 1 else 0) 0)
    → acc ≡ 0
    → digit out k ≡ digit b k
button b byte out j k acc o i z = omega (arith, set_digit byte j, set_digit b k)

nibble-high : (b j : ℕ) → 4 ≤ j → digit (dpad_nibble b) j ≡ 0
unfolding dpad_nibble
nibble-high b j le =
    let lt =
      nibble_of-lt (is_set b dpad_up) (is_set b dpad_down) (is_set b dpad_left)
        (is_set b dpad_right) in
    digit-above 4 _ j (omega arith) le

-- A direction: no row sets it.
dpad_button :
    (b k : ℕ)
    → row_digit (rows_read b) k ≡ 0
    → digit (direction b) k ≡ (if is_set b (2 ^ k) then 1 else 0)
    → digit (read b) k ≡ digit b k
dpad_button b k r d = omega (arith, read-step b k, digit-zero k, set_digit b k)

read-digits :
    (b : ℕ)
    → (is_set b dpad_up && is_set b dpad_down) ≡ false
    → (is_set b dpad_left && is_set b dpad_right) ≡ false
    → AllBelow (λ k. k ≢ 15 → digit (read b) k ≡ digit b k) 20
unfolding digit low_buttons high_buttons extra_buttons
read-digits b p q =
    let (u, d, l, r) =
      dpad_bits-digits (is_set b dpad_up) (is_set b dpad_down) (is_set b dpad_left)
        (is_set b dpad_right) p q in
    (
      λ ne. dpad_button b 19 refl r,
      (
        λ ne. dpad_button b 18 refl l,
        (
          λ ne. dpad_button b 17 refl d,
          (
            λ ne. dpad_button b 16 refl u,
            (
              λ ne. absurd (ne refl),
              (
                λ ne.
                    button b (extra_buttons b) (read b) 2 14 (digit 0 2)
                      (read-low b 14 (omega arith)) (digit-press_all (extra_rows b) 0 2) refl,
                (
                  λ ne.
                      button b (extra_buttons b) (read b) 1 13 (digit 0 1)
                        (read-low b 13 (omega arith)) (digit-press_all (extra_rows b) 0 1) refl,
                  (
                    λ ne.
                        button b (extra_buttons b) (read b) 0 12 (digit 0 0)
                          (read-low b 12 (omega arith)) (digit-press_all (extra_rows b) 0 0) refl,
                    (
                      λ ne.
                          button b (high_buttons b) (read b) 7 11 (digit 0 7)
                            (read-low b 11 (omega arith)) (digit-press_all (high_rows b) 0 7) refl,
                      (
                        λ ne.
                            button b (high_buttons b) (read b) 6 10 (digit 0 6)
                              (read-low b 10 (omega arith)) (digit-press_all (high_rows b) 0 6)
                              refl,
                        (
                          λ ne.
                              button b (high_buttons b) (read b) 5 9 (digit 0 5)
                                (read-low b 9 (omega arith)) (digit-press_all (high_rows b) 0 5)
                                refl,
                          (
                            λ ne.
                                button b (high_buttons b) (read b) 4 8 (digit 0 4)
                                  (read-low b 8 (omega arith)) (digit-press_all (high_rows b) 0 4)
                                  refl,
                            (
                              λ ne.
                                  button b (high_buttons b) (read b) 3 7 (digit 0 3)
                                    (read-low b 7 (omega arith)) (digit-press_all (high_rows b) 0 3)
                                    refl,
                              (
                                λ ne.
                                    button b (high_buttons b) (read b) 2 6 (digit 0 2)
                                      (read-low b 6 (omega arith))
                                      (digit-press_all (high_rows b) 0 2) refl,
                                (
                                  λ ne.
                                      button b (high_buttons b) (read b) 1 5 (digit 0 1)
                                        (read-low b 5 (omega arith))
                                        (digit-press_all (high_rows b) 0 1) refl,
                                  (
                                    λ ne.
                                        button b (high_buttons b) (read b) 0 4 (digit 0 0)
                                          (read-low b 4 (omega arith))
                                          (digit-press_all (high_rows b) 0 0) refl,
                                    (
                                      λ ne.
                                          button b (low_buttons b) (read b) 7 3
                                            (digit (dpad_nibble b) 7) (read-low b 3 (omega arith))
                                            (digit-press_all (low_rows b) (dpad_nibble b) 7)
                                            (nibble-high b 7 (omega arith)),
                                      (
                                        λ ne.
                                            button b (low_buttons b) (read b) 6 2
                                              (digit (dpad_nibble b) 6) (read-low b 2 (omega arith))
                                              (digit-press_all (low_rows b) (dpad_nibble b) 6)
                                              (nibble-high b 6 (omega arith)),
                                        (
                                          λ ne.
                                              button b (low_buttons b) (read b) 5 1
                                                (digit (dpad_nibble b) 5)
                                                (read-low b 1 (omega arith))
                                                (digit-press_all (low_rows b) (dpad_nibble b) 5)
                                                (nibble-high b 5 (omega arith)),
                                          (
                                            λ ne.
                                                button b (low_buttons b) (read b) 4 0
                                                  (digit (dpad_nibble b) 4)
                                                  (read-low b 0 (omega arith))
                                                  (digit-press_all (low_rows b) (dpad_nibble b) 4)
                                                  (nibble-high b 4 (omega arith)),
                                            tt,
                                          ),
                                        ),
                                      ),
                                    ),
                                  ),
                                ),
                              ),
                            ),
                          ),
                        ),
                      ),
                    ),
                  ),
                ),
              ),
            ),
          ),
        ),
      ),
    )

-- The frame that is read has the sticks and the triggers of `f`, and its button of weight `2 ^ k`.
abbrev pub IsReadBack : PadFrame → ℕ → Option PadFrame → Type 0
IsReadBack f k none = ⊥
IsReadBack f k (some g) =
    (g.lx ≡ f.lx)
    × (g.ly ≡ f.ly)
    × (g.rx ≡ f.rx)
    × (g.ry ≡ f.ry)
    × (g.l2 ≡ f.l2)
    × (g.r2 ≡ f.r2)
    × (digit g.buttons k ≡ digit f.buttons k)

-- A frame that presses no two opposite directions, mapped to the report of a virtual DualSense, is read
-- back by the parser of such reports: with the same sticks and triggers, and with the same of each of the
-- nineteen buttons (every bit below 20 but bit 15, which is no button's).
pub parse-mapped :
    (f : PadFrame) (k : ℕ)
    → (is_set f.buttons dpad_up && is_set f.buttons dpad_down) ≡ false
    → (is_set f.buttons dpad_left && is_set f.buttons dpad_right) ≡ false
    → k < 20
    → k ≢ 15
    → IsReadBack f k (parse_input_report (pad_frame_to_dualsense_usb_report f))
unfolding parse_input_report report_body report_frame pad_frame_to_dualsense_usb_report
parse-mapped f k vertical horizontal lt ne = (
  refl,
  refl,
  refl,
  refl,
  refl,
  refl,
  AllBelow-at (λ i. i ≢ 15 → digit (read f.buttons) i ≡ digit f.buttons i) 20 k
      (read-digits f.buttons vertical horizontal) lt ne,
)
