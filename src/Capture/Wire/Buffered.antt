-- ===== src/Capture/Wire/Buffered.antt =====
-- The two readers of audio packets in crates/capture-bridge/src/audio.rs: one of a stream, one of a buffer.
use couchlink.Base.{
  ℕ, zero, suc, ◌+◌, ◌-◌, ◌<◌, ◌≤◌, ◌≡◌, refl, ap, ◌∙◌, arith, [], ◌∷◌, none, some, true, false,
  ◌&&◌, ltb, leb, if◌then◌else◌, length, get_or, take, drop, length-drop, bytes_eq, Bool-cases, inl,
  inr,
}
use couchlink.Proto.Buffer.{Bytes}
use couchlink.Capture.Wire.{
  AudioFrame, truncated_header, truncated_payload, invalid_opus_size, ReadError, Read, done, failed,
  io, bad_opus_size, read_exact, u32_at, ◌>>=◌, max_opus, audio_magic, read_audio_head,
  read_audio_body, read_audio_frame, Tried, tried, refused, try_read_audio_frame,
}

-- How the reader of a buffer puts the error of the reader of a stream: a stream that ends too early is a
-- header of fewer than seventeen bytes, or a payload. A wrong magic is not an error of audio.
abbrev pub error_of : Bytes → ReadError → Tried
error_of buf io = refused (if ltb (length buf) 17 then truncated_header else truncated_payload)
error_of buf (bad_opus_size len) = refused (invalid_opus_size len)
error_of buf other = tried none

-- What the reader of a stream comes to, as the reader of a buffer says it.
abbrev pub taken : Bytes → Read AudioFrame → Tried
taken buf (failed e) = error_of buf e
taken buf (done f rest) = tried (some (f, length buf - length rest))

get_or-take : (n i : ℕ) (b : Bytes) → i < n → get_or (take n b) i 0 ≡ get_or b i 0
get_or-take zero i b lt = absurd (omega arith)
get_or-take (suc n) i [] lt = refl
get_or-take (suc n) zero (x ∷ b) lt = refl
get_or-take (suc n) (suc i) (x ∷ b) lt = get_or-take n i b (omega arith)

head-u32 : (i : ℕ) (b : Bytes) → i + 3 < 13 → u32_at (take 13 b) i ≡ u32_at b i
head-u32 i b lt = rw (get_or-take 13 i b (omega arith)) (
    rw (get_or-take 13 (i + 1) b (omega arith))
      (rw (get_or-take 13 (i + 2) b (omega arith)) (rw (get_or-take 13 (i + 3) b lt) refl)))

-- The fields of a header, and the payload behind it.
abbrev payload_read : (len seq sample_rate channels : ℕ) → Bytes → Read AudioFrame
payload_read len seq sample_rate channels x =
    if ltb max_opus len
    then failed (bad_opus_size len)
    else read_exact len x >>= λ opus rest.
        (done (record { seq = seq; sample_rate = sample_rate; channels = channels; opus = opus })
          rest)

abbrev payload_tried : (len seq sample_rate channels n : ℕ) → Bytes → Tried
payload_tried len seq sample_rate channels n x =
    if ltb max_opus len
    then refused (invalid_opus_size len)
    else if ltb n (17 + len)
    then refused truncated_payload
    else tried (
        some (
          record { seq = seq; sample_rate = sample_rate; channels = channels; opus = take len x },
          17 + len,
        ))

payload_tried-read :
    (len seq sample_rate channels : ℕ) (buf x : Bytes)
    → length buf ≡ 17 + length x
    → payload_tried len seq sample_rate channels (length buf) x
      ≡ taken buf (payload_read len seq sample_rate channels x)
unfolding read_exact
payload_tried-read len seq sample_rate channels buf x e = elim (Bool-cases (ltb max_opus len)) [
  | inl big ↦ rw big refl
  | inr small ↦ elim (Bool-cases (leb len (length x))) [
    | inl fits ↦
        let enough : ltb (length buf) (17 + len) ≡ false = ground arith in
        let used : length buf - length (drop len x) ≡ 17 + len =
          ground (arith, length-drop len x) in
        rw (small, fits) (rw (enough, used) refl)
    | inr short ↦
        let missing : ltb (length buf) (17 + len) ≡ true = ground arith in
        let headed : ltb (length buf) 17 ≡ false = ground arith in
        rw (small, short) (rw (missing, headed) refl)
  ]
]

payload_read-same :
    {l m s t p q c d : ℕ} (x : Bytes)
    → l ≡ m
    → s ≡ t
    → p ≡ q
    → c ≡ d
    → payload_read l s p c x ≡ payload_read m t q d x
payload_read-same x e f g h = rw (e, f, g, h) refl

read_exact-enough : (n : ℕ) (r : Bytes) → n ≤ length r → read_exact n r ≡ done (take n r) (drop n r)
unfolding read_exact
read_exact-enough n r le = ground arith

read_audio_body-fields :
    (r : Bytes)
    → 13 ≤ length r
    → read_audio_body r
      ≡ payload_read (u32_at r 9) (u32_at r 0) (u32_at r 4) (get_or r 8 0) (drop 13 r)
unfolding read_audio_body read_audio_head
read_audio_body-fields r le =
    ap (λ m. m >>= (λ head x. read_audio_head head x)) (read_exact-enough 13 r le)
    ∙ payload_read-same (drop 13 r) (head-u32 9 r (omega arith)) (head-u32 0 r (omega arith))
        (head-u32 4 r (omega arith)) (get_or-take 13 8 r (omega arith))

read_audio_body-short : (r : Bytes) → length r < 13 → read_audio_body r ≡ failed io
unfolding read_audio_body read_exact
read_audio_body-short r lt = let e : leb 13 (length r) ≡ false = ground arith in rw e refl

behind_magic-read :
    (a b c d : ℕ) (r : Bytes)
    → (if ltb (length (a ∷ b ∷ c ∷ d ∷ r)) 17
        then refused truncated_header
        else payload_tried
            (u32_at r 9)
            (u32_at r 0)
            (u32_at r 4)
            (get_or r 8 0)
            (length (a ∷ b ∷ c ∷ d ∷ r))
            (drop 13 r))
      ≡ taken (a ∷ b ∷ c ∷ d ∷ r) (read_audio_body r)
behind_magic-read a b c d r = elim (Bool-cases (ltb (length r) 13)) [
  | inl short ↦
      let e : ltb (length (a ∷ b ∷ c ∷ d ∷ r)) 17 ≡ true = ground arith in
      rw (read_audio_body-short r (ground arith)) (rw e refl)
  | inr long ↦
      let e : ltb (length (a ∷ b ∷ c ∷ d ∷ r)) 17 ≡ false = ground arith in
      rw (e, read_audio_body-fields r (ground arith))
        (payload_tried-read (u32_at r 9) (u32_at r 0) (u32_at r 4) (get_or r 8 0)
          (a ∷ b ∷ c ∷ d ∷ r) (drop 13 r) (ground (arith, length-drop 13 r)))
]

-- On every buffer that begins with the magic the reader of a buffer agrees with the reader of a stream: it gives
-- the same packet and the number of bytes that were read; it refuses the same opus size; and where the stream
-- ends too early it says that the header is truncated, if there are fewer than seventeen bytes, or else the
-- payload. On any other buffer it finds no audio.
pub try_read_audio_frame-read :
    (buf : Bytes)
    → try_read_audio_frame buf ≡ (
        if leb 4 (length buf) && bytes_eq (take 4 buf) audio_magic
        then taken buf (read_audio_frame buf)
        else tried none)
unfolding try_read_audio_frame read_audio_frame read_exact
try_read_audio_frame-read [] = refl
try_read_audio_frame-read (a ∷ []) = refl
try_read_audio_frame-read (a ∷ b ∷ []) = refl
try_read_audio_frame-read (a ∷ b ∷ c ∷ []) = refl
try_read_audio_frame-read (a ∷ b ∷ c ∷ d ∷ r) =
    let long : ltb (length (a ∷ b ∷ c ∷ d ∷ r)) 4 ≡ false = ground arith in
    let four : leb 4 (length (a ∷ b ∷ c ∷ d ∷ r)) ≡ true = ground arith in
    rw (long, four)
      (elim (Bool-cases (bytes_eq (a ∷ b ∷ c ∷ d ∷ []) audio_magic)) [
        | inl audio ↦ rw audio (behind_magic-read a b c d r)
        | inr other ↦ rw other refl
      ])
