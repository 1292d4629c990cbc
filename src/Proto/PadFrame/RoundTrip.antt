-- ===== src/Proto/PadFrame/RoundTrip.antt =====
-- The pad codec: round trip, and what `decode` answers on every input.
use couchlink.Base.{
  ℕ, ◌≡◌, arith, [], ◌∷◌, ◌++◌, length, take, get_or, ltb, ◌==◌, not, bytes_eq, if◌then◌else◌, ◌||◌,
  ◌&&◌, All,
}
use couchlink.Proto.Buffer.{Bytes, IsByte, Buffer, Decoded, ok, err, panic, reads, writes}
use couchlink.Proto.PadFrame.{
  PadFrame, IsPadFrame, encode, decode, decode_tail, PadCodecError, short, bad_magic, bad_version,
  pad_magic,
}

-- What `decode` answers, without the frame: read off the length, the magic and the version byte.
abbrev pub outcome : Decoded PadCodecError PadFrame → Decoded PadCodecError (Unit {0})
outcome (ok f) = ok tt
outcome (err e) = err e
outcome panic = panic

abbrev pub verdict : Bytes → Decoded PadCodecError (Unit {0})
verdict bs =
    let ver : ℕ = get_or bs 4 0 in
    if ltb (length bs) 31
    then err short
    else if not (bytes_eq (take 4 bs) pad_magic)
    then err bad_magic
    else if not (ver == 1 || ver == 2)
    then err (bad_version ver)
    else if (ver == 2) && ltb (length bs) 35
    then err short
    else ok tt

module _ (io : Buffer) where
  -- A frame whose fields fit their widths is decoded from its own encoding, unchanged, whatever
  -- bytes follow it.
  pub decode-encode_pad :
      (f : PadFrame) (rest : Bytes) → IsPadFrame f → decode io (encode io f [] ++ rest) ≡ ok f
  unfolding decode decode_tail encode
  decode-encode_pad f rest h = simp (writes, reads) (ground arith)

  decode_tail-bare :
      (ver : ℕ) (f : PadFrame) (b : ℕ) (rest : Bytes)
      → outcome (decode_tail io ver f (b ∷ rest)) ≡ (
          if not (ver == 1 || ver == 2)
          then err (bad_version ver)
          else if (ver == 2) && ltb (length rest) 4
          then err short
          else ok tt)
  unfolding decode_tail
  decode_tail-bare ver f b [] = simp reads (ground arith)
  decode_tail-bare ver f b (r0 ∷ []) = simp reads (ground arith)
  decode_tail-bare ver f b (r0 ∷ r1 ∷ []) = simp reads (ground arith)
  decode_tail-bare ver f b (r0 ∷ r1 ∷ r2 ∷ []) = simp reads (ground arith)
  decode_tail-bare ver f b (r0 ∷ r1 ∷ r2 ∷ r3 ∷ rest) = simp reads (ground arith)

  -- `decode` answers exactly as the length, the magic and the version byte say, and never reads
  -- past the end of the buffer.
  pub decode-verdict_pad : (bs : Bytes) → outcome (decode io bs) ≡ verdict bs
  unfolding decode
  decode-verdict_pad
        (b0 ∷ b1 ∷ b2 ∷ b3 ∷ b4 ∷ b5 ∷ b6 ∷ b7 ∷ b8 ∷ b9 ∷ b10 ∷ b11 ∷ b12 ∷ b13 ∷ b14 ∷ b15 ∷ b16
          ∷ b17 ∷ b18 ∷ b19 ∷ b20 ∷ b21 ∷ b22 ∷ b23 ∷ b24 ∷ b25 ∷ b26 ∷ b27 ∷ b28 ∷ b29 ∷ b30
          ∷ rest) =
      simp reads (grind (arith, decode_tail-bare))
  decode-verdict_pad bs = ground arith

  decode_tail-IsPadFrame :
      (ver : ℕ) (f g : PadFrame) (b : ℕ) (rest : Bytes)
      → IsPadFrame f
      → All IsByte rest
      → decode_tail io ver f (b ∷ rest) ≡ ok g
      → IsPadFrame g
  unfolding decode_tail
  decode_tail-IsPadFrame ver f g b [] h bytes e = ground (arith, simp reads at e)
  decode_tail-IsPadFrame ver f g b (r0 ∷ []) h bytes e = ground (arith, simp reads at e)
  decode_tail-IsPadFrame ver f g b (r0 ∷ r1 ∷ []) h bytes e = ground (arith, simp reads at e)
  decode_tail-IsPadFrame ver f g b (r0 ∷ r1 ∷ r2 ∷ []) h bytes e = ground (arith, simp reads at e)
  decode_tail-IsPadFrame ver f g b (r0 ∷ r1 ∷ r2 ∷ r3 ∷ rest) h bytes e =
      ground (arith, simp reads at e)

  -- Every frame that `decode` makes of bytes has fields that fit their widths.
  pub decode-IsPadFrame :
      (bs : Bytes) (f : PadFrame) → All IsByte bs → decode io bs ≡ ok f → IsPadFrame f
  unfolding decode
  decode-IsPadFrame
        (b0 ∷ b1 ∷ b2 ∷ b3 ∷ b4 ∷ b5 ∷ b6 ∷ b7 ∷ b8 ∷ b9 ∷ b10 ∷ b11 ∷ b12 ∷ b13 ∷ b14 ∷ b15 ∷ b16
          ∷ b17 ∷ b18 ∷ b19 ∷ b20 ∷ b21 ∷ b22 ∷ b23 ∷ b24 ∷ b25 ∷ b26 ∷ b27 ∷ b28 ∷ b29 ∷ b30
          ∷ rest)
        f bytes e =
      grind (arith, simp reads at e, decode_tail-IsPadFrame)
  decode-IsPadFrame bs f bytes e = ground arith
