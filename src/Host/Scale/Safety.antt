-- ===== src/Host/Scale/Safety.antt =====
-- The scaler of crates/host/src/scale.rs writes within its frame.
use couchlink.Base.Order.{div-le}
use couchlink.Base.{
  ℕ, zero, suc, ◌+◌, ◌-◌, ◌*◌, ◌/◌, ◌^◌, ◌<◌, ◌≤◌, ◌≡◌, refl, sym, ◌∙◌, ap, arith, ◌++◌, Option,
  none, some, Bool, true, leb, ltb, ◌==◌, ◌||◌, ◌&&◌, length, take, drop, replicate, length-append,
  length-take, length-drop, length-replicate, inl, inr, Bool-cases, min,
}
use couchlink.Proto.Buffer.{Bytes}
use couchlink.Host.Scale.{
  Layout, usize, zeroed, get_range, copy_range, fit, layout, copy_found, copy_pixel, scale_pixel,
  scale_row, scale_rows, scale_bgra, ◌>>=◌,
}

-- The result is a frame of `size` bytes, and no panic.
abbrev pub IsFrame : ℕ → Option Bytes → Type 0
IsFrame size none = ⊥
IsFrame size (some out) = length out ≡ size

-- A side of fewer than 2^30 pixels.
abbrev pub IsSide : ℕ → Type 0
IsSide n = n < 2 ^ 30

usize-fits : (checks : Bool) (n : ℕ) → n < 2 ^ 64 → usize checks n ≡ some n
unfolding usize
usize-fits checks n h = ground arith

mul-side : (a b : ℕ) → a ≤ 2 ^ 30 → b ≤ 2 ^ 30 → a * b ≤ 2 ^ 60
mul-side a b p q = let one : a * b ≤ 2 ^ 30 * b = grind arith in omega (arith, one)

index-lt : (r c w h : ℕ) → r < h → c < w → r * w + c < w * h
index-lt r c w zero lr lc = absurd (omega arith)
index-lt r c w (suc h) lr lc = elim (Bool-cases (r == h)) [
  | inl y ↦ let e : r ≡ h = ground arith in rw e (grind arith)
  | inr n ↦ let rest = index-lt r c w h (ground arith) lc in grind (arith, rest)
]

-- What follows a result that is a frame gives a frame.
bind-IsFrame :
    (size : ℕ) (o : Option Bytes) (f : Bytes → Option Bytes)
    → IsFrame size o
    → ((out : Bytes) → length out ≡ size → IsFrame size (f out))
    → IsFrame size (o >>= f)
bind-IsFrame size none f h k = absurd h
bind-IsFrame size (some out) f h k = k out h

copy_range-IsFrame :
    (out : Bytes) (di : ℕ) (px : Bytes) (size : ℕ)
    → length out ≡ size
    → di + 4 ≤ size
    → length px ≡ 4
    → IsFrame size (copy_range out di (di + 4) px)
unfolding copy_range
copy_range-IsFrame out di px size len le four =
    let fits : (leb di (di + 4) && (leb (di + 4) (length out) && length px == di + 4 - di)) ≡ true =
      ground arith in
    rw fits (
      omega (
        arith,
        length-append (take di out ++ px) (drop (di + 4) out),
        length-append (take di out) px,
        length-take di out,
        length-drop (di + 4) out,
      ))

get_range-length :
    (src : Bytes) (si : ℕ) (px : Bytes) → get_range src si (si + 4) ≡ some px → length px ≡ 4
unfolding get_range
get_range-length src si px e = elim (Bool-cases (leb si (si + 4) && leb (si + 4) (length src))) [
  | inl here ↦
      let four : length (take (si + 4 - si) (drop si src)) ≡ 4 =
        ground (arith, length-take (si + 4 - si) (drop si src), length-drop si src) in
      sym (ap length (same (take (si + 4 - si) (drop si src)) px (rw here at e))) ∙ four
  | inr short ↦ absurd (nothing px (rw short at e))
]
  where
    same : (a b : Bytes) → some a ≡ some b → a ≡ b
    same a b p = cc p

    nothing : (b : Bytes) → none ≡ some b → ⊥
    nothing b p = cc p

copy_pixel-IsFrame :
    (checks : Bool) (src out : Bytes) (si di size : ℕ)
    → length out ≡ size
    → di + 4 ≤ size
    → size < 2 ^ 64
    → si + 4 < 2 ^ 64
    → IsFrame size (copy_pixel checks src out si di)
unfolding copy_pixel copy_found
copy_pixel-IsFrame checks src out si di size len le small within =
    rw (usize-fits checks (si + 4) within) (found (get_range src si (si + 4)) refl)
  where
    found :
        (o : Option Bytes)
        → get_range src si (si + 4) ≡ o
        → IsFrame size (copy_found checks out di o)
    found none e = len
    found (some px) e =
        rw (usize-fits checks (di + 4) (omega arith))
          (copy_range-IsFrame out di px size len le (get_range-length src si px e))

-- The box stands within the destination, and the sides are a picture's.
record IsInside (g : Layout) (dh : ℕ) : Type 0 where
  wide : g.off_x + g.box_w ≤ g.dw
  high : g.off_y + g.box_h ≤ dh
  source_w : IsSide g.sw
  source_h : IsSide g.sh
  dest_w : IsSide g.dw
  dest_h : IsSide dh

scale_pixel-IsFrame :
    (checks : Bool) (g : Layout) (dh : ℕ) (src : Bytes) (y x : ℕ) (out : Bytes)
    → IsInside g dh
    → y < g.box_h
    → x < g.box_w
    → length out ≡ g.dw * dh * 4
    → IsFrame (g.dw * dh * 4) (scale_pixel checks g src y x out)
unfolding scale_pixel
scale_pixel-IsFrame checks g dh src y x out i ly lx len =
    let high = i.high in
    let wide = i.wide in
    let sw = i.source_w in
    let sh = i.source_h in
    let dw = i.dest_w in
    let dh_small = i.dest_h in
    let down : y * g.sh ≤ 2 ^ 60 = mul-side y g.sh (omega arith) (omega arith) in
    let right : x * g.sw ≤ 2 ^ 60 = mul-side x g.sw (omega arith) (omega arith) in
    let sy : y * g.sh / g.box_h ≤ g.sh =
      div-le (y * g.sh) g.sh g.box_h (omega arith) (grind arith) in
    let sx : x * g.sw / g.box_w ≤ g.sw =
      div-le (x * g.sw) g.sw g.box_w (omega arith) (grind arith) in
    let above : y * g.sh / g.box_h * g.sw ≤ 2 ^ 60 =
      mul-side (y * g.sh / g.box_h) g.sw (omega arith) (omega arith) in
    let area : g.dw * dh ≤ 2 ^ 60 = mul-side g.dw dh (omega arith) (omega arith) in
    let at = index-lt (y + g.off_y) (x + g.off_x) g.dw dh (omega arith) (omega arith) in
    rw (usize-fits checks (y * g.sh) (omega arith)) (
      rw (usize-fits checks (x * g.sw) (omega arith)) (
        rw (usize-fits checks ((y * g.sh / g.box_h * g.sw + x * g.sw / g.box_w) * 4) (omega arith))
          (rw (usize-fits checks (((y + g.off_y) * g.dw + (x + g.off_x)) * 4) (omega arith)) (
            copy_pixel-IsFrame checks src out _ _ (g.dw * dh * 4) len (omega arith) (omega arith)
              (omega arith)))))

scale_row-IsFrame :
    (checks : Bool) (g : Layout) (dh : ℕ) (src : Bytes) (y x n : ℕ) (out : Bytes)
    → IsInside g dh
    → y < g.box_h
    → x + n ≤ g.box_w
    → length out ≡ g.dw * dh * 4
    → IsFrame (g.dw * dh * 4) (scale_row checks g src y x n out)
unfolding scale_row
scale_row-IsFrame checks g dh src y x zero out i ly lx len = len
scale_row-IsFrame checks g dh src y x (suc n) out i ly lx len =
    bind-IsFrame _ (scale_pixel checks g src y x out) _
      (scale_pixel-IsFrame checks g dh src y x out i ly (omega arith) len)
      (λ more l. scale_row-IsFrame checks g dh src y (x + 1) n more i ly (omega arith) l)

scale_rows-IsFrame :
    (checks : Bool) (g : Layout) (dh : ℕ) (src : Bytes) (y n : ℕ) (out : Bytes)
    → IsInside g dh
    → y + n ≤ g.box_h
    → length out ≡ g.dw * dh * 4
    → IsFrame (g.dw * dh * 4) (scale_rows checks g src y n out)
unfolding scale_rows
scale_rows-IsFrame checks g dh src y zero out i ly len = len
scale_rows-IsFrame checks g dh src y (suc n) out i ly len =
    bind-IsFrame _ (scale_row checks g src y 0 g.box_w out) _
      (scale_row-IsFrame checks g dh src y 0 g.box_w out i (omega arith) (omega arith) len)
      (λ more l. scale_rows-IsFrame checks g dh src (y + 1) n more i (omega arith) l)

-- The box is found without an overflow and is no larger than the destination.
fit-box :
    (checks : Bool) (sw sh dw dh : ℕ)
    → IsSide sw
    → IsSide sh
    → IsSide dw
    → IsSide dh
    → (w : ℕ) × (h : ℕ) × (fit checks sw sh dw dh ≡ some (w, h)) × (w ≤ dw) × (h ≤ dh)
unfolding fit
fit-box checks sw sh dw dh a b c d =
    let first : usize checks (sw * dh) ≡ some (sw * dh) =
      usize-fits checks (sw * dh) (omega (arith, mul-side sw dh (omega arith) (omega arith))) in
    let second : usize checks (dw * sh) ≡ some (dw * sh) =
      usize-fits checks (dw * sh) (omega (arith, mul-side dw sh (omega arith) (omega arith))) in
    let third : usize checks (sh * dw) ≡ some (sh * dw) =
      usize-fits checks (sh * dw) (omega (arith, mul-side sh dw (omega arith) (omega arith))) in
    elim (Bool-cases (leb (sw * dh) (dw * sh))) [
      | inl tall ↦
          (min (sw * dh / sh) dw, dh, rw first (rw second (rw tall refl)), omega arith, omega arith)
      | inr wide ↦ (
        dw,
        min (sh * dw / sw) dh,
        rw first (rw second (rw wide (rw third refl))),
        omega arith,
        omega arith,
      )
    ]

layout-IsInside :
    (sw sh dw dh w h : ℕ)
    → IsSide sw
    → IsSide sh
    → IsSide dw
    → IsSide dh
    → 1 ≤ dw
    → 1 ≤ dh
    → w ≤ dw
    → h ≤ dh
    → IsInside (layout sw sh dw dh (w, h)) dh
unfolding layout
layout-IsInside sw sh dw dh w h a b c d p q r s = record {
  wide = omega arith;
  high = omega arith;
  source_w = a;
  source_h = b;
  dest_w = c;
  dest_h = d;
}

-- Whatever bytes a capture hands over, when the sides of both pictures are less than 2^30 scaling does not panic
-- and gives a frame of exactly the destination's size, in a build with checks of overflow and in one
-- without them.
pub scale_bgra-IsFrame :
    (checks : Bool) (src : Bytes) (sw sh dw dh : ℕ)
    → IsSide sw
    → IsSide sh
    → IsSide dw
    → IsSide dh
    → IsFrame (dw * dh * 4) (scale_bgra checks src sw sh dw dh)
unfolding scale_bgra zeroed layout
scale_bgra-IsFrame checks src sw sh dw dh a b c d =
    let area : dw * dh ≤ 2 ^ 60 = mul-side dw dh (omega arith) (omega arith) in
    let held : ltb (dw * dh * 4) (2 ^ 63) ≡ true = ground arith in
    let blank : length (replicate {A = ℕ} (dw * dh * 4) 0) ≡ dw * dh * 4 =
      length-replicate {A = ℕ} (dw * dh * 4) 0 in
    let (w, h, box, wide, high) = fit-box checks sw sh dw dh a b c d in
    rw (usize-fits checks (dw * dh * 4) (omega arith)) (
      rw held (elim (Bool-cases (sw == 0 || sh == 0 || dw == 0 || dh == 0)) [
        | inl empty ↦ rw empty blank
        | inr full ↦ rw full (
            rw box (
              scale_rows-IsFrame checks (layout sw sh dw dh (w, h)) dh src 0
                (layout sw sh dw dh (w, h)).box_h (replicate {A = ℕ} (dw * dh * 4) 0)
                (layout-IsInside sw sh dw dh w h a b c d (ground arith) (ground arith) wide high)
                (omega arith) blank))
      ]))
