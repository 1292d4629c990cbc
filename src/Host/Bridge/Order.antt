-- ===== src/Host/Bridge/Order.antt =====
-- Which frames `capture` (crates/host/src/capture/bridge.rs) hands on from a stream of bursts.
use couchlink.Base.{
  if◌then◌else◌, ℕ, ◌≡◌, refl, ap, ◌∙◌, List, [], ◌∷◌, Option, none, some, Bool, true, not, All,
}
use couchlink.Proto.Buffer.{Bytes}
use couchlink.Capture.Wire.{FrameFormat, bgra, h264, is_bgra}
use couchlink.Host.Bridge.{
  WindowsBridge, Socket, Captured, raw, encoded, read_frame, latest_frame, capture, capture_polled,
  capture_after, capture_on, deliver, Polled, got, note_frame,
}
use couchlink.Host.Bridge.Demux.{Burst, IsBurst, wire, after_burst, read_frame-wire}

-- What a frame is handed on as.
abbrev pub captured_of : Burst → Captured
captured_of u = if is_bgra u.info.format then raw u.payload else encoded u.payload u.info.keyframe

abbrev pub Holds : Bytes → Bool → WindowsBridge → Type 0
Holds bytes closed b = b.stream ≡ some (record { bytes = bytes; closed = closed })

pub after_burst-kept :
    (u : Burst) (rest : Bytes) (closed : Bool) (b : WindowsBridge)
    → Holds rest closed (after_burst u rest closed b)
      × ((after_burst u rest closed b).pending ≡ b.pending)
      × ((after_burst u rest closed b).format ≡ u.info.format)
      × ((after_burst u rest closed b).buf ≡ u.payload)
      × ((after_burst u rest closed b).keyframe ≡ u.info.keyframe)
unfolding note_frame
after_burst-kept u rest closed b = (refl, refl, refl, refl, refl)

pub capture-polled :
    (now : ℕ) (dialling : Option Socket) (b : WindowsBridge) {bytes : Bytes} {closed : Bool}
    (r : Polled)
    → b.pending ≡ none
    → Holds bytes closed b
    → latest_frame b ≡ r
    → capture now dialling b ≡ capture_polled now dialling r
unfolding capture
capture-polled now dialling b r p e l =
    ap (λ o. capture_after o now dialling b) p
    ∙ ap (λ s. capture_on s now dialling b) e
    ∙ ap (capture_polled now dialling) l

not_raw : (g : FrameFormat) → g ≡ h264 → not (is_bgra g) ≡ true
not_raw bgra q = cc
not_raw h264 q = refl

latest_frame-h264 :
    (b c : WindowsBridge) → read_frame b ≡ got c → c.format ≡ h264 → latest_frame b ≡ got c
unfolding latest_frame
latest_frame-h264 b c e f = let t = not_raw c.format f in rw (e, latest_frame) (rw t refl)

deliver-h264 :
    (now : ℕ) (b : WindowsBridge)
    → b.format ≡ h264
    → ((deliver now b).1 ≡ some (encoded b.buf b.keyframe))
      × ((deliver now b).0.stream ≡ b.stream)
      × ((deliver now b).0.pending ≡ b.pending)
unfolding deliver
deliver-h264 now b f = let t = not_raw b.format f in (rw t refl, rw t refl, rw t refl)

-- What the calls of `capture` at these instants hand on, with no client waiting.
abbrev pub captures : List ℕ → WindowsBridge → List (Option Captured)
captures [] b = []
captures (now ∷ later) b = let (c, out) = capture now none b in out ∷ captures later c

abbrev pub frames_of : List (ℕ × Burst) → List (Option Captured)
frames_of [] = []
frames_of (x ∷ xs) = some (encoded x.1.payload x.1.info.keyframe) ∷ frames_of xs

abbrev pub instants : List (ℕ × Burst) → List ℕ
instants [] = []
instants (x ∷ xs) = x.0 ∷ instants xs

abbrev pub bursts : List (ℕ × Burst) → List Burst
bursts [] = []
bursts (x ∷ xs) = x.1 ∷ bursts xs

abbrev pub IsEncoded : ℕ × Burst → Type 0
IsEncoded x = IsBurst x.1 × (x.1.info.format ≡ h264)

-- When no frame is pending from the start and the socket holds whole H.264 frames, each with fewer than
-- sixteen audio packets before it and no other bytes, the calls of `capture` hand on every frame, in order
-- and with its keyframe flag, one for each call, while no other client waits; the rest of the bridge's state
-- is any.
pub captures-h264 :
    (xs : List (ℕ × Burst)) (closed : Bool) (b : WindowsBridge)
    → All IsEncoded xs
    → b.pending ≡ none
    → Holds (wire (bursts xs)) closed b
    → captures (instants xs) b ≡ frames_of xs
captures-h264 [] closed b all p e = refl
captures-h264 ((now, u) ∷ xs) closed b ((i, f), all) p e =
    let c = after_burst u (wire (bursts xs)) closed b in
    let (kept, same, format, buf, key) = after_burst-kept u (wire (bursts xs)) closed b in
    let step : capture now none b ≡ deliver now c =
      capture-polled now none b (got c) p e
        (latest_frame-h264 b c (read_frame-wire u (bursts xs) closed b i e) (format ∙ f)) in
    let (out, stream, pending) = deliver-h264 now c (format ∙ f) in
    let rest = captures-h264 xs closed (deliver now c).0 all (pending ∙ same ∙ p) (stream ∙ kept) in
    rw step (cc (out, buf, key, rest))
