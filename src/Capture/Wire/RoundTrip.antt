-- ===== src/Capture/Wire/RoundTrip.antt =====
-- What is written to the capture socket is read from it.
use couchlink.Base.{
  Bool, ltb, ◌==◌, ◌&&◌, ◌||◌, not, ℕ, ◌+◌, ◌*◌, ◌/◌, ◌%◌, ◌^◌, ◌<◌, ◌≤◌, ◌≡◌, refl, ◌∙◌, arith, [],
  ◌∷◌, ◌++◌, some, true, false, length, take-append_self, drop-append_self, length-append, leb,
}
use couchlink.Proto.Buffer.{Bytes, le_bytes}
use couchlink.Capture.Wire.{
  as_byte, bit_of, is_bgra, FrameInfo, FrameFormat, bgra, h264, AudioFrame, done, read_exact,
  u32_at, read_payload, read_head, read_frame_body_sync, read_frame_sync, write_frame_with_format,
  max_payload, max_opus, read_audio_head, read_audio_body, write_audio_frame, audio_magic,
  frame_magic, bgra_len,
}

pub read_exact-append : (a b : Bytes) → read_exact (length a) (a ++ b) ≡ done a b
unfolding read_exact
read_exact-append a b =
    let fits : leb (length a) (length (a ++ b)) ≡ true = ground (arith, length-append a b) in
    rw fits (cc (take-append_self a b, drop-append_self a b))

-- A number of 32 bits is read from its four bytes.
u32-le :
    (n : ℕ)
    → n < 2 ^ 32
    → n % 256
        + n / 256 % 256 * 256
        + n / 256 / 256 % 256 * 65536
        + n / 256 / 256 / 256 % 256 * 0x100_0000
      ≡ n
u32-le n h = omega arith

-- A frame that can be sent: its fields fit, and a raw one has the size that it names.
pub record IsFrame (info : FrameInfo) (payload : Bytes) : Type 0 where
  pub width_fits : info.width < 2 ^ 32
  pub height_fits : info.height < 2 ^ 32
  pub some_bytes : 0 < length payload
  pub not_too_many : length payload ≤ max_payload
  pub raw_size : info.format ≡ bgra → length payload ≡ bgra_len info.width info.height

read_frame_sync-magic : (x : Bytes) → read_frame_sync (frame_magic ++ x) ≡ read_frame_body_sync x
unfolding read_frame_sync
read_frame_sync-magic x = rw (read_exact-append frame_magic x) refl

read_frame_body_sync-head :
    (head x : Bytes) → length head ≡ 14 → read_frame_body_sync (head ++ x) ≡ read_head head x
unfolding read_frame_body_sync
read_frame_body_sync-head head x e =
    let first : read_exact 14 (head ++ x) ≡ done head x = rw (← e) (read_exact-append head x) in
    rw first refl

read_payload-append :
    (info : FrameInfo) (payload rest : Bytes)
    → IsFrame info payload
    → read_payload info (length payload) (payload ++ rest) ≡ done (info, payload) rest
unfolding read_payload
read_payload-append info payload rest f =
    let some_bytes = f.some_bytes in
    let not_too_many = f.not_too_many in
    let sized : (length payload == 0 || ltb max_payload (length payload)) ≡ false = ground arith in
    let raw : (is_bgra info.format && not (length payload == bgra_len info.width info.height))
        ≡ false =
      raw_test info.format (length payload) (bgra_len info.width info.height) f.raw_size in
    rw (sized, raw, read_exact-append payload rest) refl
  where
    raw_test :
        (g : FrameFormat) (n m : ℕ) → (g ≡ bgra → n ≡ m) → (is_bgra g && not (n == m)) ≡ false
    raw_test bgra n m h = let e = h refl in ground arith
    raw_test h264 n m h = refl

-- The fourteen bytes behind the magic.
abbrev head_of : FrameInfo → ℕ → Bytes
head_of info len =
    (as_byte info.format ∷ bit_of info.keyframe ∷ [])
    ++ (le_bytes 4 info.width ++ (le_bytes 4 info.height ++ le_bytes 4 len))

read_head-head_of :
    (info : FrameInfo) (len : ℕ) (x : Bytes)
    → info.width < 2 ^ 32
    → info.height < 2 ^ 32
    → len < 2 ^ 32
    → read_head (head_of info len) x ≡ read_payload info len x
unfolding read_head
read_head-head_of info len x fw fh fl =
    let w = u32-le info.width fw in
    let h = u32-le info.height fh in
    let l = u32-le len fl in read_as info.format info.keyframe info.width info.height len w h l
  where
    read_as :
        (g : FrameFormat) (k : Bool) (w h n : ℕ)
        → u32_at (le_bytes 4 w) 0 ≡ w
        → u32_at (le_bytes 4 h) 0 ≡ h
        → u32_at (le_bytes 4 n) 0 ≡ n
        → read_head (head_of (record { width = w; height = h; format = g; keyframe = k }) n) x
          ≡ read_payload (record { width = w; height = h; format = g; keyframe = k }) n x
    read_as bgra true w h n ew eh en = cc
    read_as bgra false w h n ew eh en = cc
    read_as h264 true w h n ew eh en = cc
    read_as h264 false w h n ew eh en = cc

max_payload-under : {n : ℕ} → n ≤ max_payload → n < 2 ^ 32
unfolding max_payload
max_payload-under h = omega arith

-- The bytes of a frame behind its magic.
abbrev pub body_bytes : FrameInfo → Bytes → Bytes
body_bytes info payload = head_of info (length payload) ++ payload

pub read_frame_body_sync-write :
    (info : FrameInfo) (payload rest : Bytes)
    → IsFrame info payload
    → read_frame_body_sync (body_bytes info payload ++ rest) ≡ done (info, payload) rest
read_frame_body_sync-write info payload rest f =
    let small : length payload < 2 ^ 32 = max_payload-under f.not_too_many in
    read_frame_body_sync-head (head_of info (length payload)) (payload ++ rest) refl
    ∙ read_head-head_of info (length payload) (payload ++ rest) f.width_fits f.height_fits small
    ∙ read_payload-append info payload rest f

-- A frame that keeps to the limits is read from its own bytes, whatever follows them, and what follows is
-- left: its fields fit 32 bits, it has between one byte and 64 MiB, and a raw one has the size that its
-- width and height name.
pub read_frame_sync-write :
    (info : FrameInfo) (payload rest : Bytes)
    → IsFrame info payload
    → read_frame_sync (write_frame_with_format info payload ++ rest) ≡ done (info, payload) rest
unfolding write_frame_with_format
read_frame_sync-write info payload rest f =
    read_frame_sync-magic (body_bytes info payload ++ rest)
    ∙ read_frame_body_sync-write info payload rest f

-- An audio packet that can be sent.
pub record IsAudio (f : AudioFrame) : Type 0 where
  pub seq_fits : f.seq < 2 ^ 32
  pub sample_rate_fits : f.sample_rate < 2 ^ 32
  pub not_too_many : length f.opus ≤ max_opus

max_opus-under : {n : ℕ} → n ≤ max_opus → n < 2 ^ 32
unfolding max_opus
max_opus-under h = omega arith

abbrev audio_head : AudioFrame → Bytes
audio_head f =
    le_bytes 4 f.seq ++ (le_bytes 4 f.sample_rate ++ (f.channels ∷ le_bytes 4 (length f.opus)))

-- The body of an audio frame on the wire.
abbrev pub audio_bytes : AudioFrame → Bytes
audio_bytes f = audio_head f ++ f.opus

pub read_audio_body-bytes :
    (f : AudioFrame) (rest : Bytes)
    → IsAudio f
    → read_audio_body (audio_bytes f ++ rest) ≡ done f rest
unfolding read_audio_body read_audio_head
read_audio_body-bytes f rest a =
    let x = f.opus ++ rest in
    let first : read_exact 13 (audio_head f ++ x) ≡ done (audio_head f) x =
      read_exact-append (audio_head f) x in
    let s = u32-le f.seq a.seq_fits in
    let r = u32-le f.sample_rate a.sample_rate_fits in
    let n = u32-le (length f.opus) (max_opus-under a.not_too_many) in
    let not_too_many = a.not_too_many in
    let fits : ltb max_opus (length f.opus) ≡ false = ground arith in
    rw first (rw n (rw (fits, read_exact-append f.opus rest) (rw (s, r) refl)))

write_audio_frame-bytes :
    (f : AudioFrame) → IsAudio f → write_audio_frame f ≡ some (audio_magic ++ audio_bytes f)
unfolding write_audio_frame
write_audio_frame-bytes f a =
    let not_too_many = a.not_too_many in
    let fits : ltb max_opus (length f.opus) ≡ false = ground arith in rw fits refl
