-- ===== src/Host/Scale.antt =====
-- crates/host/src/scale.rs: a captured frame, scaled into the stream's size with bars. A panic of the code
-- is `none`. `checks` is whether the build has the checks of overflow: with them a product that does not
-- fit the 64 bits of a `usize` is a panic, without them it wraps.
pub mod Safety
mod Examples
use couchlink.Base.{
  ◌&&◌, ℕ, zero, suc, ◌+◌, ◌-◌, ◌*◌, ◌/◌, ◌%◌, ◌^◌, min, max, List, [], ◌∷◌, ◌++◌, Option, none,
  some, Bool, leb, ltb, ◌==◌, ◌||◌, if◌then◌else◌, length, take, drop, replicate,
}
use couchlink.Proto.Buffer.{Bytes}

infixl 5 ◌>>=◌
abbrev pub ◌>>=◌ : {A B : Type 0} → Option A → (A → Option B) → Option B
none >>= f = none
some a >>= f = f a

-- The result of an expression of sums and products, whose parts are no greater than the whole.
unfoldable pub usize : Bool → ℕ → Option ℕ
usize checks n = if ltb n (2 ^ 64) then some n else if checks then none else some (n % 2 ^ 64)

-- `vec![0u8; len]`; a vector of more than `isize::MAX` bytes is a panic.
unfoldable pub zeroed : ℕ → Option Bytes
zeroed len = if ltb len (2 ^ 63) then some (replicate len 0) else none

-- `src.get(si..end)`
unfoldable pub get_range : Bytes → ℕ → ℕ → Option Bytes
get_range src si end =
    if leb si end && leb end (length src) then some (take (end - si) (drop si src)) else none

-- `out[di..end].copy_from_slice(px)`
unfoldable pub copy_range : Bytes → ℕ → ℕ → Bytes → Option Bytes
copy_range out di end px =
    if leb di end && (leb end (length out) && length px == end - di)
    then some (take di out ++ px ++ drop end out)
    else none

-- The sizes of a call, with the box that the picture fills and its place.
pub record Layout : Type 0 where
  pub sw : ℕ
  pub sh : ℕ
  pub dw : ℕ
  pub box_w : ℕ
  pub box_h : ℕ
  pub off_x : ℕ
  pub off_y : ℕ

-- The largest rectangle of the source's shape that the destination holds.
unfoldable pub fit : Bool → (sw sh dw dh : ℕ) → Option (ℕ × ℕ)
fit checks sw sh dw dh = usize checks (sw * dh) >>= λ a.
    (usize checks (dw * sh) >>= λ b.
    (if leb a b
      then some (min (a / sh) dw, dh)
      else usize checks (sh * dw) >>= λ c. some (dw, min (c / sw) dh)))

unfoldable pub layout : (sw sh dw dh : ℕ) → ℕ × ℕ → Layout
layout sw sh dw dh (w, h) = record {
  sw = sw;
  sh = sh;
  dw = dw;
  box_w = max w 1;
  box_h = max h 1;
  off_x = (dw - max w 1) / 2;
  off_y = (dh - max h 1) / 2;
}

-- A pixel that the source has is copied, and one that it lacks is left dark.
unfoldable pub copy_found : Bool → Bytes → ℕ → Option Bytes → Option Bytes
copy_found checks out di none = some out
copy_found checks out di (some px) = usize checks (di + 4) >>= λ end. copy_range out di end px

-- The body of the inner loop, from `si` and `di` on.
unfoldable pub copy_pixel : Bool → Bytes → Bytes → ℕ → ℕ → Option Bytes
copy_pixel checks src out si di =
    usize checks (si + 4) >>= λ end. copy_found checks out di (get_range src si end)

-- The body of the inner loop; the products `y * sh` and `x * sw` are divided before they are used.
unfoldable pub scale_pixel : Bool → Layout → Bytes → ℕ → ℕ → Bytes → Option Bytes
scale_pixel checks g src y x out = usize checks (y * g.sh) >>= λ down.
    (usize checks (x * g.sw) >>= λ right.
    (usize checks ((down / g.box_h * g.sw + right / g.box_w) * 4) >>= λ si.
    (usize checks (((y + g.off_y) * g.dw + (x + g.off_x)) * 4) >>= λ di.
    copy_pixel checks src out si di)))

-- The `n` pixels of a row from `x` on.
unfoldable pub scale_row : Bool → Layout → Bytes → ℕ → ℕ → ℕ → Bytes → Option Bytes
scale_row checks g src y x zero out = some out
scale_row checks g src y x (suc n) out =
    scale_pixel checks g src y x out >>= λ more. scale_row checks g src y (x + 1) n more

-- The `n` rows from `y` on.
unfoldable pub scale_rows : Bool → Layout → Bytes → ℕ → ℕ → Bytes → Option Bytes
scale_rows checks g src y zero out = some out
scale_rows checks g src y (suc n) out =
    scale_row checks g src y 0 g.box_w out >>= λ more. scale_rows checks g src (y + 1) n more

unfoldable pub scale_bgra : Bool → Bytes → (sw sh dw dh : ℕ) → Option Bytes
scale_bgra checks src sw sh dw dh = usize checks (dw * dh * 4) >>= λ len.
    (zeroed len >>= λ out.
    (if sw == 0 || sh == 0 || dw == 0 || dh == 0
      then some out
      else fit checks sw sh dw dh >>= λ box.
          (scale_rows checks (layout sw sh dw dh box) src 0 (layout sw sh dw dh box).box_h out)))
