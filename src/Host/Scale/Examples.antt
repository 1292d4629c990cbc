-- ===== src/Host/Scale/Examples.antt =====
-- A picture of one pixel, scaled into a wider frame.
use couchlink.Base.{◌≡◌, refl, arith, [], ◌∷◌, ◌*◌, none, some, true, ◌++◌}
use couchlink.Proto.Buffer.{Bytes}
use couchlink.Host.Scale.{
  fit, layout, usize, zeroed, get_range, copy_range, copy_found, copy_pixel, scale_pixel, scale_row,
  scale_rows, scale_bgra,
}
use couchlink.Host.Scale.Safety.{IsFrame, scale_bgra-IsFrame}

abbrev pixel : Bytes
pixel = 10 ∷ 20 ∷ 30 ∷ 255 ∷ []

abbrev bar : Bytes
bar = 0 ∷ 0 ∷ 0 ∷ 0 ∷ []

-- The bars stand on both sides.
letterboxed : scale_bgra true pixel 1 1 3 1 ≡ some (bar ++ pixel ++ bar)
unfolding scale_bgra scale_rows scale_row scale_pixel copy_pixel copy_found copy_range get_range
    layout fit usize zeroed
letterboxed = refl

-- A capture that hands over too few bytes leaves the frame dark.
short_capture : scale_bgra true [] 1 1 3 1 ≡ some (bar ++ bar ++ bar)
unfolding scale_bgra scale_rows scale_row scale_pixel copy_pixel copy_found copy_range get_range
    layout fit usize zeroed
short_capture = refl

-- A frame of 2^32 by 2^31 pixels is more than the machine's word counts.
too_large : scale_bgra true pixel 1 1 0x1_0000_0000 0x8000_0000 ≡ none
unfolding scale_bgra usize
too_large = refl

scale_bgra-IsFrame_example : IsFrame (3 * 1 * 4) (scale_bgra true pixel 1 1 3 1)
scale_bgra-IsFrame_example =
    scale_bgra-IsFrame true pixel 1 1 3 1 (omega arith) (omega arith) (omega arith) (omega arith)
