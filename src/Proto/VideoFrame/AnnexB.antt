-- ===== src/Proto/VideoFrame/AnnexB.antt =====
-- crates/proto/src/video_frame.rs: `annex_b_is_keyframe`. The
-- index of the loop is the number of bytes that are dropped; `rest` is `data[i..]`.
pub mod Streams
use couchlink.Base.{
  length-append, ℕ, zero, suc, ◌+◌, ◌<◌, ◌≤◌, ◌≡◌, refl, sym, ◌∙◌, ap, arith, List, [], ◌∷◌, ◌++◌,
  Bool, true, false, ltb, not, ◌==◌, ◌&&◌, ◌||◌, if◌then◌else◌, length, drop, bit_and, ◌⊎◌, inl,
  inr, Bool-cases,
}
use couchlink.Proto.Buffer.{Bytes}

unfoldable pub starts_with : Bytes → Bytes → Bool
starts_with [] bs = true
starts_with (c ∷ cs) [] = false
starts_with (c ∷ cs) (b ∷ bs) = c == b && starts_with cs bs

abbrev pub long_code : Bytes
long_code = 0 ∷ 0 ∷ 0 ∷ 1 ∷ []

abbrev pub short_code : Bytes
short_code = 0 ∷ 0 ∷ 1 ∷ []

-- How a round of the loop ends: with an answer, or with what the next round reads.
pub data Round : Type 0 where
  answer : Bool → Round
  next : Bytes → Round

-- The header of a NAL unit and what follows it; nothing is left when the data ends at the start code.
unfoldable pub read_header : Bytes → Round
read_header [] = answer false
read_header (h ∷ rest) = if bit_and h 0x1F == 5 then answer true else next rest

unfoldable pub round : Bytes → Round
round rest =
    if not (ltb 4 (length rest))
    then answer false
    else if starts_with long_code rest
    then read_header (drop 4 rest)
    else if starts_with short_code rest
    then read_header (drop 3 rest)
    else next (drop 1 rest)

-- The loop, on fuel; each round drops a byte or more.
unfoldable pub scan : ℕ → Bytes → Bool
scan zero rest = false
scan (suc n) rest = elim (round rest) [ answer b ↦ b | next more ↦ scan n more ]

unfoldable pub annex_b_is_keyframe : Bytes → Bool
annex_b_is_keyframe data_bytes = scan (length data_bytes) data_bytes
