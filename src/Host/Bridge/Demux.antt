-- ===== src/Host/Bridge/Demux.antt =====
-- One call of `read_frame` (crates/host/src/capture/bridge.rs) on a stream of audio and video.
use couchlink.Base.{
  ℕ, zero, suc, ◌<◌, ◌≡◌, refl, sym, ap, ◌∙◌, arith, List, [], ◌∷◌, ◌++◌, some, Bool, false, ltb,
  length, All,
}
use mathlib.Core.List.{append-nil, append_assoc}
use couchlink.Proto.Buffer.{Bytes}
use couchlink.Capture.Wire.{FrameInfo, AudioFrame, write_frame_with_format, audio_magic}
use couchlink.Capture.Wire.RoundTrip.{
  IsFrame, IsAudio, audio_bytes, read_audio_body-bytes, read_frame_body_sync-write,
}
use couchlink.Host.Bridge.{
  WindowsBridge, demux, frame, read_frame, read_socket, got, polled, note_frame, keep_audio,
}

-- A frame, and the audio packets that the capture process writes before it.
pub record Burst : Type 0 where
  pub audio : List AudioFrame
  pub info : FrameInfo
  pub payload : Bytes

pub record IsBurst (u : Burst) : Type 0 where
  pub few : length u.audio < 16
  pub packets : All IsAudio u.audio
  pub video : IsFrame u.info u.payload

abbrev pub audio_wire : List AudioFrame → Bytes → Bytes
audio_wire [] rest = rest
audio_wire (f ∷ fs) rest = audio_magic ++ (audio_bytes f ++ audio_wire fs rest)

-- The bytes of bursts, one after the other.
abbrev pub wire : List Burst → Bytes
wire [] = []
wire (u ∷ us) = audio_wire u.audio (write_frame_with_format u.info u.payload ++ wire us)

demux-audio :
    (n : ℕ) (closed : Bool) (audio : List AudioFrame) (f : AudioFrame) (rest : Bytes)
    → IsAudio f
    → demux (suc n) closed audio (audio_magic ++ (audio_bytes f ++ rest))
      ≡ demux n closed (audio ++ f ∷ []) rest
unfolding demux
demux-audio n closed audio f rest a =
    let body = read_audio_body-bytes f rest a in
    let long : ltb (length (audio_magic ++ (audio_bytes f ++ rest))) 4 ≡ false = ground arith in
    rw long (rw body refl)

demux-video :
    (n : ℕ) (closed : Bool) (audio : List AudioFrame) (info : FrameInfo) (payload rest : Bytes)
    → IsFrame info payload
    → demux (suc n) closed audio (write_frame_with_format info payload ++ rest)
      ≡ frame info payload audio rest
unfolding demux write_frame_with_format
demux-video n closed audio info payload rest f =
    let body = read_frame_body_sync-write info payload rest f in
    let long : ltb (length (write_frame_with_format info payload ++ rest)) 4 ≡ false =
      ground arith in
    rw long (rw body refl)

demux-wire :
    (n : ℕ) (closed : Bool) (met fs : List AudioFrame) (info : FrameInfo) (payload rest : Bytes)
    → length fs < n
    → All IsAudio fs
    → IsFrame info payload
    → demux n closed met (audio_wire fs (write_frame_with_format info payload ++ rest))
      ≡ frame info payload (met ++ fs) rest
demux-wire zero closed met fs info payload rest lt all f = absurd (omega arith)
demux-wire (suc n) closed met [] info payload rest lt all f =
    demux-video n closed met info payload rest f
    ∙ ap (λ m. frame info payload m rest) (sym (append-nil met))
demux-wire (suc n) closed met (a ∷ fs) info payload rest lt all f =
    demux-audio n closed met a (audio_wire fs (write_frame_with_format info payload ++ rest)) all.0
    ∙ demux-wire n closed (met ++ a ∷ []) fs info payload rest (omega arith) all.1 f
    ∙ ap (λ m. frame info payload m rest) (append_assoc met (a ∷ []) fs)

-- The state after a burst, with what is left on the socket.
abbrev pub after_burst : Burst → Bytes → Bool → WindowsBridge → WindowsBridge
after_burst u rest closed b =
    note_frame u.info u.payload
      (record (keep_audio u.audio b) { stream = some (record { bytes = rest; closed = closed }) })

-- From a burst of fewer than sixteen audio packets and a frame, one call takes exactly the frame, keeps the
-- packets in their order and leaves what follows on the socket.
pub read_frame-wire :
    (u : Burst) (us : List Burst) (closed : Bool) (b : WindowsBridge)
    → IsBurst u
    → b.stream ≡ some (record { bytes = wire (u ∷ us); closed = closed })
    → read_frame b ≡ got (after_burst u (wire us) closed b)
unfolding read_frame
read_frame-wire u us closed b i e =
    ap (λ s. read_socket s b) e
    ∙ ap (λ d. polled closed d b)
        (demux-wire 16 closed [] u.audio u.info u.payload (wire us) i.few i.packets i.video)
