-- ===== src/Host/Peer/Keyframes.antt =====
-- How often the players' losses can ask the encoder for a keyframe (crates/host/src/webrtc_peer.rs).
use couchlink.Base.{ℕ, ◌+◌, List, [], ◌∷◌, if◌then◌else◌}
use couchlink.Host.Peer.{WebRtcHost, request_keyframe_coalesced_within, take_keyframe_request}

-- At each of these instants a loss asks for a keyframe, and then the video loop takes what was asked: how
-- many keyframes the encoder is asked for.
abbrev pub keyframes_taken : ℕ → List ℕ → WebRtcHost → ℕ
keyframes_taken gap [] p = 0
keyframes_taken gap (now ∷ later) p =
    let (q, wanted) = take_keyframe_request (request_keyframe_coalesced_within gap now p) in
    (if wanted then 1 else 0) + keyframes_taken gap later q
