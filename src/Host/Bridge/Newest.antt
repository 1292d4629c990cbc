-- ===== src/Host/Bridge/Newest.antt =====
-- What `capture` hands on when raw frames queue up on the socket (crates/host/src/capture/bridge.rs).
use couchlink.Base.{
  if◌then◌else◌, ℕ, zero, suc, ◌+◌, ◌<◌, ◌≤◌, ◌≡◌, refl, ap, ◌∙◌, arith, List, [], ◌∷◌, ◌++◌,
  Option, none, some, Bool, false, not, length, All, length-append,
}
use couchlink.Proto.Buffer.{Bytes}
use couchlink.Capture.Wire.{
  AudioFrame, FrameInfo, FrameFormat, bgra, h264, is_bgra, write_frame_with_format,
}
use couchlink.Capture.Wire.RoundTrip.{audio_bytes}
use couchlink.Host.Bridge.{
  WindowsBridge, Socket, raw, encoded, read_frame, read_socket, drain, latest_frame, capture,
  deliver, got, no_frame, received, note_frame, keep_audio, bytes_of, demux,
}
use couchlink.Host.Bridge.Demux.{Burst, IsBurst, wire, after_burst, audio_wire, read_frame-wire}
use couchlink.Host.Bridge.Order.{captured_of, Holds, after_burst-kept, capture-polled}

-- The state after the last of some bursts.
abbrev after_all : List Burst → WindowsBridge → WindowsBridge
after_all [] b = b
after_all (u ∷ us) b = after_all us (after_burst u (wire us) false b)

drain-got : (n : ℕ) (b c : WindowsBridge) → read_frame b ≡ got c → drain (suc n) b ≡ drain n c
unfolding drain
drain-got n b c e = rw (e, drain) refl

-- On an open socket without bytes there is no frame.
read_frame-empty :
    (b : WindowsBridge)
    → Holds [] false b
    → (c : WindowsBridge) × (read_frame b ≡ no_frame c)
      × (c.format ≡ b.format)
      × (c.buf ≡ b.buf)
      × (c.keyframe ≡ b.keyframe)
      × Holds [] false c
unfolding read_frame demux
read_frame-empty b e = (
  record (keep_audio [] b) { stream = some (record { bytes = []; closed = false }) },
  ap (λ s. read_socket s b) e,
  refl,
  refl,
  refl,
  refl,
)

drain-none :
    (n : ℕ) (b c : WindowsBridge) → read_frame b ≡ no_frame c → drain (suc n) b ≡ no_frame c
unfolding drain
drain-none n b c e = rw (e, drain) refl

-- The loop takes all bursts off the socket when it has more rounds than there are bursts.
drain-wire :
    (us : List Burst) (n : ℕ) (b : WindowsBridge)
    → All IsBurst us
    → length us < n
    → Holds (wire us) false b
    → (c : WindowsBridge) × (drain n b ≡ no_frame c)
      × (c.format ≡ (after_all us b).format)
      × (c.buf ≡ (after_all us b).buf)
      × (c.keyframe ≡ (after_all us b).keyframe)
      × Holds [] false c
drain-wire us zero b all lt e = absurd (omega arith)
drain-wire [] (suc n) b all lt e =
    let (c, r, f, p, k, s) = read_frame-empty b e in (c, drain-none n b c r, f, p, k, s)
drain-wire (u ∷ us) (suc n) b all lt e =
    let c = after_burst u (wire us) false b in
    let (kept, same, format, buf, key) = after_burst-kept u (wire us) false b in
    let (d, r, f, p, k, s) = drain-wire us n c all.1 (omega arith) kept in
    (d, drain-got n b c (read_frame-wire u us false b all.0 e) ∙ r, f, p, k, s)

after_all-last :
    (us : List Burst) (w : Burst) (b : WindowsBridge)
    → ((after_all (us ++ w ∷ []) b).format ≡ w.info.format)
      × ((after_all (us ++ w ∷ []) b).buf ≡ w.payload)
      × ((after_all (us ++ w ∷ []) b).keyframe ≡ w.info.keyframe)
after_all-last [] w b =
    let (kept, same, format, buf, key) = after_burst-kept w [] false b in (format, buf, key)
after_all-last (u ∷ us) w b = after_all-last us w (after_burst u (wire (us ++ w ∷ [])) false b)

audio_wire-length :
    (fs : List AudioFrame) (rest : Bytes) → length rest ≤ length (audio_wire fs rest)
audio_wire-length [] rest = omega arith
audio_wire-length (f ∷ fs) rest =
    omega (arith, audio_wire-length fs rest, length-append (audio_bytes f) (audio_wire fs rest))

frame-length :
    (info : FrameInfo) (payload rest : Bytes)
    → 2 + length rest ≤ length (write_frame_with_format info payload ++ rest)
unfolding write_frame_with_format
frame-length info payload rest = omega (arith, length-append payload rest)

-- Every burst has more than one byte, and so there are rounds enough.
wire-length : (us : List Burst) → length us + length us ≤ length (wire us)
wire-length [] = omega arith
wire-length (u ∷ us) = omega (
  arith,
  wire-length us,
  frame-length u.info u.payload (wire us),
  audio_wire-length u.audio (write_frame_with_format u.info u.payload ++ wire us),
)

deliver-out :
    (now : ℕ) (b : WindowsBridge)
    → (deliver now b).1 ≡ some (if is_bgra b.format then raw b.buf else encoded b.buf b.keyframe)
unfolding deliver
deliver-out now b = ground arith

deliver-stream : (now : ℕ) (b : WindowsBridge) → (deliver now b).0.stream ≡ b.stream
unfolding deliver
deliver-stream now b = ground arith

latest_frame-raw :
    (b c d : WindowsBridge)
    → read_frame b ≡ got c
    → c.format ≡ bgra
    → drain (length (bytes_of c.stream)) c ≡ no_frame d
    → latest_frame b ≡ got d
unfolding latest_frame
latest_frame-raw b c d e f r =
    let t = is_raw c.format f in rw (e, latest_frame) (rw t (ap received r))
  where
    is_raw : (g : FrameFormat) → g ≡ bgra → not (is_bgra g) ≡ false
    is_raw bgra q = refl
    is_raw h264 q = cc

-- When no frame is pending from the start and the open socket holds a raw frame and at least one frame more,
-- each whole and with fewer than sixteen audio packets before it, one call of `capture` hands on the last of
-- these frames and leaves no bytes on the socket: all other frames are gone, H.264 frames among them.
pub capture-newest :
    (now : ℕ) (dialling : Option Socket) (u w : Burst) (us : List Burst) (b : WindowsBridge)
    → IsBurst u
    → u.info.format ≡ bgra
    → All IsBurst (us ++ w ∷ [])
    → b.pending ≡ none
    → b.stream ≡ some (record { bytes = wire (u ∷ (us ++ w ∷ [])); closed = false })
    → ((capture now dialling b).1 ≡ some (captured_of w))
      × Holds [] false (capture now dialling b).0
unfolding note_frame
capture-newest now dialling u w us b i f all p e =
    let vs = us ++ w ∷ [] in
    let c = after_burst u (wire vs) false b in
    let (kept, same, format, buf, key) = after_burst-kept u (wire vs) false b in
    let (d, r, df, dp, dk, ds) =
      drain-wire vs (length (wire vs)) c all
        (omega (arith, wire-length vs, length-append us (w ∷ []))) kept in
    let (lf, lp, lk) = after_all-last us w c in
    let polled = latest_frame-raw b c d (read_frame-wire u vs false b i e) (format ∙ f) r in
    let called = capture-polled now dialling b (got d) p e polled in
    (
      ap (λ x. x.1) called ∙ deliver-out now d ∙ same_out (df ∙ lf) (dp ∙ lp) (dk ∙ lk),
      ap (λ x. x.0.stream) called ∙ deliver-stream now d ∙ ds,
    )
  where
    same_out :
        {g g' : FrameFormat} {x x' : Bytes} {k k' : Bool}
        → g ≡ g'
        → x ≡ x'
        → k ≡ k'
        → some (if is_bgra g then raw x else encoded x k)
          ≡ some (if is_bgra g' then raw x' else encoded x' k')
    same_out p q r = cc
