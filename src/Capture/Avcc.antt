-- ===== src/Capture/Avcc.antt =====
-- `avcc_to_annex_b` of crates/capture-bridge/src/mf_encoder.rs: what the hardware encoder gives, with a length
-- before each unit, becomes a stream with a start code before each.
use couchlink.Base.{
  ℕ, zero, suc, ◌+◌, ◌*◌, ◌/◌, ◌%◌, ◌^◌, ◌<◌, ◌≤◌, ◌≡◌, refl, sym, ap, ◌∙◌, arith, List, [], ◌∷◌,
  ◌++◌, Option, none, some, true, false, ◌||◌, ltb, ◌==◌, if◌then◌else◌, length, get_or, take, drop,
  All, length-append, take-append_self, drop-append_self,
}
use mathlib.Core.List.{append-nil, append_assoc}
use couchlink.Proto.Buffer.{Bytes}
use couchlink.Proto.VideoFrame.AnnexB.{long_code, annex_b_is_keyframe}
use couchlink.Proto.VideoFrame.AnnexB.Streams.{
  code_of, Nal, stream, all_payloads, any_idr, annex_b_is_keyframe-stream,
}

-- `u32::from_be_bytes` of the first four bytes
abbrev pub u32_be : Bytes → ℕ
u32_be b = get_or b 0 0 * 0x100_0000 + get_or b 1 0 * 65536 + get_or b 2 0 * 256 + get_or b 3 0

-- The loop; `none` is the error of a malformed unit. Each round takes more than four bytes, so as many rounds
-- as there are bytes are enough.
unfoldable pub convert : ℕ → Bytes → Bytes → Option Bytes
convert zero out bytes = some out
convert (suc n) out bytes =
    let len = u32_be bytes in
    let rest = drop 4 bytes in
    let more = convert n (out ++ long_code ++ take len rest) (drop len rest) in
    if ltb (length bytes) 4
    then some out
    else if len == 0 || ltb (length rest) len
    then none
    else more

unfoldable pub avcc_to_annex_b : Bytes → Option Bytes
avcc_to_annex_b bytes = convert (length bytes) [] bytes

-- `n` in four bytes, the highest first.
abbrev pub be_bytes : ℕ → Bytes
be_bytes n = n / 256 / 256 / 256 % 256 ∷ n / 256 / 256 % 256 ∷ n / 256 % 256 ∷ n % 256 ∷ []

-- The units as the encoder gives them.
abbrev pub avcc : List Nal → Bytes
avcc [] = []
avcc (u ∷ us) = be_bytes (suc (length u.payload)) ++ ((u.header ∷ u.payload) ++ avcc us)

-- A unit whose length fits its four bytes; its start code will be a long one.
abbrev pub IsUnit : Nal → Type 0
IsUnit u = (suc (length u.payload) < 2 ^ 32) × (u.is_long ≡ true)

convert-unit :
    (n : ℕ) (out unit rest : Bytes)
    → 0 < length unit
    → length unit < 2 ^ 32
    → convert (suc n) out (be_bytes (length unit) ++ (unit ++ rest))
      ≡ convert n (out ++ long_code ++ unit) rest
unfolding convert
convert-unit n out unit rest some_bytes small =
    let len : u32_be (be_bytes (length unit)) ≡ length unit = omega arith in
    let long : ltb (length (be_bytes (length unit) ++ (unit ++ rest))) 4 ≡ false = ground arith in
    let fits : (length unit == 0 || ltb (length (unit ++ rest)) (length unit)) ≡ false =
      ground (arith, length-append unit rest) in
    rw long
      (rw len (rw fits (rw (take-append_self unit rest) (rw (drop-append_self unit rest) refl))))

convert-avcc :
    (us : List Nal) (n : ℕ) (out : Bytes)
    → All IsUnit us
    → length (avcc us) ≤ n
    → convert n out (avcc us) ≡ some (out ++ stream us)
unfolding convert
convert-avcc [] zero out all le = ap some (sym (append-nil out))
convert-avcc [] (suc n) out all le = ap some (sym (append-nil out))
convert-avcc (u ∷ us) zero out all le = absurd (omega arith)
convert-avcc (u ∷ us) (suc n) out ((small, is_long), all) le =
    let unit = u.header ∷ u.payload in
    convert-unit n out unit (avcc us) (omega arith) small
    ∙ convert-avcc us n (out ++ long_code ++ unit) all
        (omega (arith, length-append u.payload (avcc us)))
    ∙ ap some (
        append_assoc (out ++ long_code) unit (stream us)
        ∙ append_assoc out long_code (unit ++ stream us)
        ∙ ap (λ l. out ++ (code_of l ++ (unit ++ stream us))) (sym is_long))

-- What the encoder gives, as units with their lengths, becomes the stream of exactly these units, in order, and
-- the host takes it for a keyframe exactly when one of them is an IDR slice; no unit is empty, their
-- lengths fit 32 bits and their payloads are as the encoder writes them.
pub avcc_to_annex_b-avcc :
    (us : List Nal)
    → All IsUnit us
    → all_payloads us ≡ true
    → (avcc_to_annex_b (avcc us) ≡ some (stream us))
      × (annex_b_is_keyframe (stream us) ≡ any_idr us)
unfolding avcc_to_annex_b
avcc_to_annex_b-avcc us all ok =
    (convert-avcc us (length (avcc us)) [] all (omega arith), annex_b_is_keyframe-stream us ok)
