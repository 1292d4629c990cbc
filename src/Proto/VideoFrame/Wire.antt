-- ===== src/Proto/VideoFrame/Wire.antt =====
-- The wire format of one video fragment: round trip, and what `decode` answers on every input.
use couchlink.Base.{
  ◌*◌, ℕ, ◌+◌, ◌<◌, ◌≤◌, ◌≡◌, arith, ◌⊎◌, inl, inr, [], ◌∷◌, length, ltb, ◌==◌, take, get_or,
  bytes_eq, not, ◌||◌, if◌then◌else◌,
}
use native.Mathlib.Decide.{dec_le}
use couchlink.Proto.Buffer.{Bytes, Buffer, read_le_enough, Decoded, ok, err, panic, reads, writes}
use couchlink.Proto.VideoFrame.{
  VideoFragment, IsVideoFragment, VideoCodecError, short, bad_magic, bad_version, bad_fragment,
  wire_version, wire_header_len, encode, encode_stamps, decode, decode_fields, decode_stamps,
  finish, check_version, video_magic,
}

-- What `decode` answers, without the fragment: read off the length, the magic, the version byte, the
-- fragment index and the fragment count.
abbrev pub outcome : Decoded VideoCodecError VideoFragment → Decoded VideoCodecError (Unit {0})
outcome (ok f) = ok tt
outcome (err e) = err e
outcome panic = panic

abbrev header_len : ℕ → ℕ
header_len ver = if ver == 4 then 30 else if ver == 3 then 26 else 18

abbrev fragment_verdict : ℕ → ℕ → Decoded VideoCodecError (Unit {0})
fragment_verdict idx count = if count == 0 || ltb count idx then err bad_fragment else ok tt

abbrev pub verdict : Bytes → Decoded VideoCodecError (Unit {0})
verdict bs =
    let ver : ℕ = get_or bs 4 0 in
    let idx : ℕ = get_or bs 14 0 + 256 * get_or bs 15 0 in
    let count : ℕ = get_or bs 16 0 + 256 * get_or bs 17 0 in
    if ltb (length bs) 18
    then err short
    else if not (bytes_eq (take 4 bs) video_magic)
    then err bad_magic
    else if not (ver == 2 || ver == 3 || ver == 4)
    then err (bad_version ver)
    else if ltb (length bs) (header_len ver)
    then err short
    else fragment_verdict idx count

version_cases :
    (f : VideoFragment)
    → (wire_version f ≡ 4) ⊎ ((wire_version f ≡ 2) × (f.stamp_us ≡ 0) × (f.input_wm ≡ 0))
unfolding wire_version
version_cases f = ground arith

module _ (io : Buffer) where
  decode-encode_v4 :
      (f : VideoFragment)
      → IsVideoFragment f
      → 0 < f.frag_count
      → f.frag_idx ≤ f.frag_count
      → wire_version f ≡ 4
      → decode io (encode io f []) ≡ ok f
  unfolding decode check_version decode_fields decode_stamps finish encode encode_stamps
      wire_header_len
  decode-encode_v4 f h some_frags in_range ver = rw ver (simp (writes, reads) (ground arith))

  decode-encode_v2 :
      (f : VideoFragment)
      → IsVideoFragment f
      → 0 < f.frag_count
      → f.frag_idx ≤ f.frag_count
      → wire_version f ≡ 2
      → f.stamp_us ≡ 0
      → f.input_wm ≡ 0
      → decode io (encode io f []) ≡ ok f
  unfolding decode check_version decode_fields decode_stamps finish encode encode_stamps
      wire_header_len
  decode-encode_v2 f h some_frags in_range ver s w = rw ver (simp (writes, reads) (ground arith))

  -- A fragment whose fields fit their widths, with at least one piece and an index of at most the number
  -- of pieces, is decoded from its own encoding, unchanged.
  pub decode-encode :
      (f : VideoFragment)
      → IsVideoFragment f
      → 0 < f.frag_count
      → f.frag_idx ≤ f.frag_count
      → decode io (encode io f []) ≡ ok f
  decode-encode f h some_frags in_range = elim (version_cases f) [
    | inl v ↦ decode-encode_v4 f h some_frags in_range v
    | inr (v, s, w) ↦ decode-encode_v2 f h some_frags in_range v s w
  ]

  -- The optional words are there once the length has been checked.
  decode_stamps-outcome :
      (ver : ℕ) (buf : Bytes) (next : ℕ → ℕ → Bytes → Decoded VideoCodecError VideoFragment)
      (v : Decoded VideoCodecError (Unit {0}))
      → ((s w : ℕ) (r : Bytes) → outcome (next s w r) ≡ v)
      → header_len ver ≤ length buf + 18
      → outcome (decode_stamps io ver buf next) ≡ v
  unfolding decode_stamps
  decode_stamps-outcome ver buf next v h enough = elim (dec_le 8 (length buf)) [
    | yes p ↦
        let (s, r, e, l) = read_le_enough 8 buf p in
        elim (dec_le 4 (length r)) [
          | yes q ↦
              let (w, r', e', l') = read_le_enough 4 r q in
              ground (
                arith,
                io.get_u64_le_lem buf,
                io.get_u32_le_lem r,
                e,
                e',
                h s w r',
                h s 0 r,
                h 0 0 buf,
                l,
              )
          | no q ↦ ground (arith, io.get_u64_le_lem buf, e, l, h s 0 r, h 0 0 buf)
        ]
    | no p ↦ ground (arith, h 0 0 buf)
  ]

  decode_stamps-verdict :
      (ver : ℕ) (buf : Bytes) (flags width height seq idx count : ℕ)
      → header_len ver ≤ length buf + 18
      → outcome (decode_stamps io ver buf (finish flags width height seq idx count))
        ≡ fragment_verdict idx count
  unfolding finish
  decode_stamps-verdict ver buf flags width height seq idx count enough =
      decode_stamps-outcome ver buf _ _ (λ s w r. ground arith) enough

  decode_fields-verdict :
      (ver b5 b6 b7 b8 b9 b10 b11 b12 b13 b14 b15 b16 b17 : ℕ) (rest : Bytes)
      → header_len ver ≤ length rest + 18
      → outcome (
          decode_fields io ver
            (b5 ∷ b6 ∷ b7 ∷ b8 ∷ b9 ∷ b10 ∷ b11 ∷ b12 ∷ b13 ∷ b14 ∷ b15 ∷ b16 ∷ b17 ∷ rest))
        ≡ fragment_verdict (b14 + 256 * b15) (b16 + 256 * b17)
  unfolding decode_fields
  decode_fields-verdict ver b5 b6 b7 b8 b9 b10 b11 b12 b13 b14 b15 b16 b17 rest enough =
      simp reads (
        ground (
          arith,
          decode_stamps-verdict ver rest (b5 + 256 * 0) (b6 + 256 * (b7 + 256 * 0))
              (b8 + 256 * (b9 + 256 * 0)) (b10 + 256 * (b11 + 256 * (b12 + 256 * (b13 + 256 * 0))))
              (b14 + 256 * (b15 + 256 * 0)) (b16 + 256 * (b17 + 256 * 0)) enough,
        ))

  check_version-verdict :
      (ver b5 b6 b7 b8 b9 b10 b11 b12 b13 b14 b15 b16 b17 : ℕ) (rest : Bytes)
      → outcome (
          check_version io ver
            (b5 ∷ b6 ∷ b7 ∷ b8 ∷ b9 ∷ b10 ∷ b11 ∷ b12 ∷ b13 ∷ b14 ∷ b15 ∷ b16 ∷ b17 ∷ rest))
        ≡ (if not (ver == 2 || ver == 3 || ver == 4)
            then err (bad_version ver)
            else if ltb (length rest + 18) (header_len ver)
            then err short
            else fragment_verdict (b14 + 256 * b15) (b16 + 256 * b17))
  unfolding check_version wire_header_len
  check_version-verdict ver b5 b6 b7 b8 b9 b10 b11 b12 b13 b14 b15 b16 b17 rest =
      ground (arith, decode_fields-verdict ver b5 b6 b7 b8 b9 b10 b11 b12 b13 b14 b15 b16 b17 rest)

  -- `decode` answers exactly as the length, the magic, the version byte, the fragment index and the
  -- fragment count say, and never reads past the end of the buffer.
  pub decode-verdict : (bs : Bytes) → outcome (decode io bs) ≡ verdict bs
  unfolding decode
  decode-verdict
        (b0 ∷ b1 ∷ b2 ∷ b3 ∷ b4 ∷ b5 ∷ b6 ∷ b7 ∷ b8 ∷ b9 ∷ b10 ∷ b11 ∷ b12 ∷ b13 ∷ b14 ∷ b15 ∷ b16
          ∷ b17 ∷ rest) =
      simp reads (
        ground (
          arith,
          check_version-verdict (b4 + 256 * 0) b5 b6 b7 b8 b9 b10 b11 b12 b13 b14 b15 b16 b17 rest,
        ))
  decode-verdict bs = ground arith
