-- ===== src/Host/Peer/Delivery.antt =====
-- What a push of crates/host/src/webrtc_peer.rs brings about, whatever the connection does.
use couchlink.Base.{
  if◌then◌else◌, not, subst, ◌==◌, ℕ, ◌+◌, ◌%◌, ◌^◌, ◌≡◌, refl, sym, ap, ◌∙◌, arith, List, [], ◌∷◌,
  ◌++◌, some, Bool, true, false, ltb, Bool-cases, inl, inr, ◌||◌,
}
use couchlink.Proto.Buffer.{Bytes, Buffer}
use couchlink.Proto.VideoFrame.{VideoAccessUnit}
use couchlink.Proto.VideoFrame.Send.{encode_fragments}
use couchlink.Host.Peer.{
  skip_of, path_unknown, path_warmup, WebRtcHost, Link, path_flags, send_all, buffer_cap,
  fragments_of, after_sending, Sending, all_sent, stopped, cancelled, request_keyframe_coalesced,
  request_keyframe_coalesced_dual, request_keyframe_coalesced_within, request_keyframe, push_clvd,
  access_unit, should_send_clvd, Clvd, push_h264, push_beside, finish, note_delivered, Pushed,
  failed, pushed, Output, delivered, push_wm_tip, should_send_rtp,
}

-- Every path has RTP.
path_flags-rtp : (full : Bool) (path : ℕ) → (path_flags full path).0 ≡ true
unfolding path_flags
path_flags-rtp full path = ground arith

should_send_rtp-true : (full keyframe : Bool) (path : ℕ) → should_send_rtp full keyframe path ≡ true
unfolding should_send_rtp
should_send_rtp-true full keyframe path = path_flags-rtp full path

abbrev pub IsPrefix : List Bytes → List Bytes → Type 0
IsPrefix xs ys = (rest : List Bytes) × (ys ≡ xs ++ rest)

send_all-IsPrefix :
    (link : Link) (keyframe : Bool) (k : ℕ) (frags : List Bytes)
    → IsPrefix (send_all link keyframe k frags).0 frags
unfolding send_all
send_all-IsPrefix link keyframe k [] = ([], refl)
send_all-IsPrefix link keyframe k (frag ∷ frags) =
    let (rest, e) = send_all-IsPrefix link keyframe (k + 2) frags in
    elim (Bool-cases (link.expired k)) [
      | inl late ↦ rw late (frag ∷ frags, refl)
      | inr here ↦ elim (Bool-cases (ltb (buffer_cap keyframe) (link.buffered k))) [
        | inl full ↦ rw (here, full) (frag ∷ frags, refl)
        | inr room ↦ elim (Bool-cases (link.expired (k + 1))) [
          | inl late ↦ rw (here, room, late) (frag ∷ frags, refl)
          | inr in_time ↦ elim (Bool-cases (link.sends (k + 1))) [
            | inl sent ↦ rw (here, room, in_time, sent) (rest, ap (λ t. frag ∷ t) e)
            | inr refused ↦ rw (here, room, in_time, refused) (frag ∷ frags, refl)
          ]
        ]
      ]
    ]

-- Behind RTP no parity is sent, whatever `fec_enabled` says.
fragments_of-rtp :
    (io : Buffer) (p : WebRtcHost) (au : VideoAccessUnit)
    → fragments_of io true p au ≡ encode_fragments io au
unfolding fragments_of
fragments_of-rtp io p au = ground arith

after_sending-kept :
    (link : Link) (send_rtp keyframe : Bool) (p : WebRtcHost) (s : Sending)
    → ((after_sending link send_rtp keyframe p s).trickle ≡ p.trickle)
      × ((after_sending link send_rtp keyframe p s).shed_streak ≡ p.shed_streak)
unfolding after_sending request_keyframe_coalesced request_keyframe_coalesced_dual
    request_keyframe_coalesced_within request_keyframe
after_sending-kept link send_rtp keyframe p all_sent = (refl, refl)
after_sending-kept link send_rtp keyframe p cancelled = (refl, refl)
after_sending-kept link send_rtp keyframe p stopped = ground arith

push_clvd-kept :
    (io : Buffer) (full : Bool) (link : Link) (send_rtp : Bool) (annex_b : Bytes) (keyframe : Bool)
    (p : WebRtcHost)
    → (push_clvd io full link send_rtp annex_b keyframe p).peer.trickle ≡ p.trickle
unfolding push_clvd request_keyframe_coalesced request_keyframe_coalesced_within request_keyframe
push_clvd-kept io full link send_rtp annex_b keyframe p =
    let taken : WebRtcHost = record p { video_seq = (p.video_seq + 1) % 2 ^ 32 } in
    let sent =
      send_all link keyframe 1 (fragments_of io send_rtp p (access_unit link annex_b keyframe p)) in
    ground (arith, after_sending-kept link send_rtp keyframe taken sent.1)

push_clvd-IsPrefix :
    (io : Buffer) (full : Bool) (link : Link) (annex_b : Bytes) (keyframe : Bool) (p : WebRtcHost)
    → IsPrefix
        (push_clvd io full link true annex_b keyframe p).packets
        (encode_fragments io (access_unit link annex_b keyframe p))
unfolding push_clvd
push_clvd-IsPrefix io full link annex_b keyframe p =
    let au = access_unit link annex_b keyframe p in
    let none_sent : IsPrefix [] (encode_fragments io au) = (encode_fragments io au, refl) in
    let sent : IsPrefix (send_all link keyframe 1 (fragments_of io true p au)).0
        (encode_fragments io au) =
      (let (rest, e) = send_all-IsPrefix link keyframe 1 (fragments_of io true p au) in
        (rest, sym (fragments_of-rtp io p au) ∙ e)) in
    elim (Bool-cases (should_send_clvd full keyframe p.present_path)) [
      | inr thin ↦ simp thin none_sent
      | inl meant ↦ elim (Bool-cases link.is_open) [
        | inr shut ↦ simp (meant, shut) none_sent
        | inl ready ↦ elim (Bool-cases (link.expired 0)) [
          | inl late ↦ simp (meant, ready, late) none_sent
          | inr here ↦ elim (Bool-cases (ltb (buffer_cap keyframe) (link.buffered 0))) [
            | inr room ↦ simp (meant, ready, here, room) sent
            | inl congested ↦
                let e : (push_clvd io full link true annex_b keyframe p).packets ≡ [] =
                  simp (meant, ready, here, congested) (quiet (not keyframe) _ _ refl refl) in
                subst (λ t. IsPrefix t (encode_fragments io au)) (sym e) none_sent
          ]
        ]
      ]
    ]
  where
    quiet :
        (b : Bool) (c d : Clvd)
        → c.packets ≡ []
        → d.packets ≡ []
        → (if b then c else d).packets ≡ []
    quiet true c d e f = e
    quiet false c d e f = f

-- A push whose sample the track takes is delivered: the sample is the whole frame, the packets beside it are
-- the first ones of the frame's fragments, and the count of sheds starts anew.
abbrev pub Paints : Buffer → Link → Bytes → Bool → WebRtcHost → Pushed → Type 0
Paints io link annex_b keyframe p failed = ⊥
Paints io link annex_b keyframe p (pushed q out fate) =
    (fate ≡ delivered)
    × (out.sample ≡ some annex_b)
    × IsPrefix out.packets (encode_fragments io (access_unit link annex_b keyframe p))
    × (q.shed_streak ≡ 0)
    × (p.trickle ≡ false → q.trickle ≡ false)

note_delivered-quiet :
    (p : WebRtcHost)
    → ((note_delivered p).shed_streak ≡ 0)
      × (p.trickle ≡ false → (note_delivered p).trickle ≡ false)
unfolding note_delivered
note_delivered-quiet p = (ground arith, λ q. ground arith)

finish-Paints :
    (io : Buffer) (link : Link) (annex_b : Bytes) (keyframe : Bool) (p q : WebRtcHost)
    (out : Output) (skip : Bool)
    → out.sample ≡ some annex_b
    → IsPrefix out.packets (encode_fragments io (access_unit link annex_b keyframe p))
    → q.trickle ≡ p.trickle
    → Paints io link annex_b keyframe p (finish out q true skip)
unfolding finish
finish-Paints io link annex_b keyframe p q out skip shown some_sent same =
    let (zero_sheds, quiet) = note_delivered-quiet q in
    (refl, shown, some_sent, zero_sheds, λ calm. quiet (same ∙ calm))

beside-Paints :
    (io : Buffer) (full : Bool) (link patient : Link) (annex_b : Bytes) (keyframe : Bool)
    (p : WebRtcHost) (shown : Output)
    → shown.sample ≡ some annex_b
    → patient.now_us ≡ link.now_us
    → Paints io link annex_b keyframe p (
        finish
          (record shown { packets = (push_clvd io full patient true annex_b keyframe p).packets })
          (push_clvd io full patient true annex_b keyframe p).peer
          true
          (skip_of (push_clvd io full patient true annex_b keyframe p).answer))
unfolding access_unit
beside-Paints io full link patient annex_b keyframe p shown e same =
    let c = push_clvd io full patient true annex_b keyframe p in
    let au : access_unit patient annex_b keyframe p ≡ access_unit link annex_b keyframe p =
      rw same refl in
    finish-Paints io link annex_b keyframe p c.peer (record shown { packets = c.packets })
      (skip_of c.answer) e
      (subst (λ u. IsPrefix c.packets (encode_fragments io u)) au
        (push_clvd-IsPrefix io full patient annex_b keyframe p))
      (push_clvd-kept io full patient true annex_b keyframe p)

-- When the track takes the sample, a push is `Delivered`, whatever the data channel does, which path the
-- player paints from and whether parity is enabled: the sample is the whole frame; what the channel
-- gets is a first part of the fragments without parity; and the peer does not enter trickle mode.
pub push_h264-Paints :
    (io : Buffer) (full : Bool) (link : Link) (annex_b : Bytes) (keyframe : Bool) (p : WebRtcHost)
    → link.writes ≡ true
    → Paints io link annex_b keyframe p (push_h264 io full link annex_b keyframe p)
unfolding push_h264 push_beside
push_h264-Paints io full link annex_b keyframe p ok =
    let on = path_flags-rtp full p.present_path in
    let on_too = should_send_rtp-true full keyframe p.present_path in
    let shown : Output = record { sample = some annex_b; tip = push_wm_tip link p; packets = [] } in
    let frags = encode_fragments io (access_unit link annex_b keyframe p) in
    elim (Bool-cases (path_flags full p.present_path).1) [
      | inr no_dc ↦
          simp (on, on_too, ok, no_dc)
            (finish-Paints io link annex_b keyframe p p shown false refl (frags, refl) refl)
      | inl dc ↦
          elim (Bool-cases (p.present_path == path_unknown || p.present_path == path_warmup)) [
            | inl hybrid ↦
                simp (on, on_too, ok, dc, hybrid)
                  (beside-Paints io full link link annex_b keyframe p shown refl refl)
            | inr later ↦
                simp (on, on_too, ok, dc, later)
                  (beside-Paints io full link (record link { writes = true; expired = λ k. false })
                    annex_b keyframe p shown refl refl)
          ]
    ]

push_h264-failed :
    (io : Buffer) (full : Bool) (link : Link) (annex_b : Bytes) (keyframe : Bool) (p : WebRtcHost)
    → link.writes ≡ false
    → push_h264 io full link annex_b keyframe p ≡ failed
unfolding push_h264
push_h264-failed io full link annex_b keyframe p refused =
    simp (
      path_flags-rtp full p.present_path,
      should_send_rtp-true full keyframe p.present_path,
      refused,
    )

-- The state after a push; a failed one changes nothing.
abbrev pub peer_after : WebRtcHost → Pushed → WebRtcHost
peer_after p failed = p
peer_after p (pushed q out fate) = q

-- One push after another, each with its connection, its frame and its kind.
abbrev pub push_all : Buffer → Bool → List (Link × Bytes × Bool) → WebRtcHost → WebRtcHost
push_all io full [] p = p
push_all io full ((link, annex_b, keyframe) ∷ more) p =
    push_all io full more (peer_after p (push_h264 io full link annex_b keyframe p))

push_h264-calm :
    (io : Buffer) (full : Bool) (link : Link) (annex_b : Bytes) (keyframe : Bool) (p : WebRtcHost)
    → p.trickle ≡ false
    → (peer_after p (push_h264 io full link annex_b keyframe p)).trickle ≡ false
push_h264-calm io full link annex_b keyframe p calm = elim (Bool-cases link.writes) [
  | inl ok ↦ paints_calm _ (push_h264-Paints io full link annex_b keyframe p ok)
  | inr refused ↦
      ap (λ r. (peer_after p r).trickle) (push_h264-failed io full link annex_b keyframe p refused)
      ∙ calm
]
  where
    paints_calm :
        (r : Pushed) → Paints io link annex_b keyframe p r → (peer_after p r).trickle ≡ false
    paints_calm failed h = absurd h
    paints_calm (pushed q out fate) (d, s, f, z, quiet) = quiet calm

-- However often frames are pushed and whatever the connections do, a peer that is not in trickle mode never
-- enters it.
pub push_all-calm :
    (io : Buffer) (full : Bool) (frames : List (Link × Bytes × Bool)) (p : WebRtcHost)
    → p.trickle ≡ false
    → (push_all io full frames p).trickle ≡ false
push_all-calm io full [] p calm = calm
push_all-calm io full ((link, annex_b, keyframe) ∷ more) p calm =
    push_all-calm io full more _ (push_h264-calm io full link annex_b keyframe p calm)
