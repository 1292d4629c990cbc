-- ===== src/Host/FanOut.antt =====
-- `push_bounded` and `push_to_all` of crates/host/src/main.rs, with `governor_shed_counts` and
-- `governor_frame_shed` of crates/host/src/webrtc_peer.rs: one frame goes to every player, and the link
-- governor is told what came of it. The peers' new states are those of `push_h264`.
mod Examples
use couchlink.Base.{
  ap, inl, inr, ◌⊎◌, Option-cases, ℕ, suc, ◌+◌, ◌≡◌, refl, ◌∙◌, arith, List, [], ◌∷◌, ◌++◌, Option,
  none, some, Bool, true, false, ◌||◌, if◌then◌else◌,
}
use couchlink.Proto.Buffer.{Bytes, Buffer}
use couchlink.Host.Peer.{
  WebRtcHost, Link, push_h264, Pushed, failed, pushed, PushFate, delivered, shed, trickle_skip,
}
use couchlink.Host.Peer.Delivery.{Paints, push_h264-Paints}

abbrev pub is_delivered : PushFate → Bool
is_delivered delivered = true
is_delivered shed = false
is_delivered trickle_skip = false

abbrev pub any_delivered : List PushFate → Bool
any_delivered [] = false
any_delivered (f ∷ fates) = is_delivered f || any_delivered fates

abbrev pub count_shed : List PushFate → ℕ
count_shed [] = 0
count_shed (delivered ∷ fates) = count_shed fates
count_shed (shed ∷ fates) = suc (count_shed fates)
count_shed (trickle_skip ∷ fates) = count_shed fates

unfoldable pub governor_shed_counts : List PushFate → Bool × ℕ
governor_shed_counts fates = (any_delivered fates, count_shed fates)

unfoldable pub governor_frame_shed : List PushFate → ℕ
governor_frame_shed [] = 0
governor_frame_shed (f ∷ fates) = if any_delivered (f ∷ fates) then 0 else 1

-- Whether a push ends within its budget; one that does not is dropped where it stands.
pub data Budget : Type 0 where
  in_time : Budget
  late : WebRtcHost → Budget

-- A player's peer, its connection during this push, and the budget.
pub record Seat : Type 0 where
  pub host : WebRtcHost
  pub link : Link
  pub budget : Budget

-- The fate of the push, or `none` for its error.
abbrev pub fate_of : Pushed → Option PushFate
fate_of failed = none
fate_of (pushed p out fate) = some fate

abbrev pub bounded_fate : Budget → Pushed → Option PushFate
bounded_fate in_time r = fate_of r
bounded_fate (late p) r = some shed

unfoldable pub push_bounded : Buffer → Bool → Bytes → Bool → Seat → Option PushFate
push_bounded io full nal keyframe seat =
    bounded_fate seat.budget (push_h264 io full seat.link nal keyframe seat.host)

-- `join_all`, and the loop that keeps the fates and logs the errors.
unfoldable pub fates_of : Buffer → Bool → Bytes → Bool → List Seat → List PushFate
fates_of io full nal keyframe [] = []
fates_of io full nal keyframe (seat ∷ seats) = elim (push_bounded io full nal keyframe seat) [
  | none ↦ fates_of io full nal keyframe seats
  | some fate ↦ fate ∷ fates_of io full nal keyframe seats
]

unfoldable pub push_to_all : Buffer → Bool → Bytes → Bool → List Seat → Bool × ℕ
push_to_all io full nal keyframe [] = (false, 0)
push_to_all io full nal keyframe (seat ∷ seats) =
    let fates = fates_of io full nal keyframe (seat ∷ seats) in
    ((governor_shed_counts fates).0, governor_frame_shed fates)

-- Some player's push is in time, and its track takes the sample.
abbrev pub Someone : List Seat → Type 0
Someone [] = ⊥
Someone (seat ∷ seats) = ((seat.budget ≡ in_time) × (seat.link.writes ≡ true)) ⊎ Someone seats

seat-delivered :
    (io : Buffer) (full : Bool) (nal : Bytes) (keyframe : Bool) (seat : Seat)
    → seat.budget ≡ in_time
    → seat.link.writes ≡ true
    → push_bounded io full nal keyframe seat ≡ some delivered
unfolding push_bounded
seat-delivered io full nal keyframe seat e ok =
    ap (λ b. bounded_fate b (push_h264 io full seat.link nal keyframe seat.host)) e
    ∙ paints_fate _ (push_h264-Paints io full seat.link nal keyframe seat.host ok)
  where
    paints_fate :
        (r : Pushed) → Paints io seat.link nal keyframe seat.host r → fate_of r ≡ some delivered
    paints_fate failed h = absurd h
    paints_fate (pushed q out fate) h = ap some h.0

fates_of-delivered :
    (io : Buffer) (full : Bool) (nal : Bytes) (keyframe : Bool) (seats : List Seat)
    → Someone seats
    → any_delivered (fates_of io full nal keyframe seats) ≡ true
unfolding fates_of
fates_of-delivered io full nal keyframe [] h = absurd h
fates_of-delivered io full nal keyframe (seat ∷ seats) (inl (e, ok)) =
    rw (seat-delivered io full nal keyframe seat e ok, fates_of) refl
fates_of-delivered io full nal keyframe (seat ∷ seats) (inr h) =
    let rest = fates_of-delivered io full nal keyframe seats h in
    elim (Option-cases (push_bounded io full nal keyframe seat)) [
      | inl err ↦ rw (err, fates_of) rest
      | inr (f, e) ↦ rw (e, fates_of) (ground (arith, rest))
    ]

governor_frame_shed-delivered :
    (fates : List PushFate) → any_delivered fates ≡ true → governor_frame_shed fates ≡ 0
unfolding governor_frame_shed
governor_frame_shed-delivered [] h = refl
governor_frame_shed-delivered (f ∷ fates) h = rw h refl

-- A frame that one player's track takes in time is delivered, and no shed is reported to the link governor,
-- whatever becomes of the push to the other players and in whatever order they are asked.
pub push_to_all-delivered :
    (io : Buffer) (full : Bool) (nal : Bytes) (keyframe : Bool) (seats : List Seat)
    → Someone seats
    → push_to_all io full nal keyframe seats ≡ (true, 0)
unfolding push_to_all governor_shed_counts
push_to_all-delivered io full nal keyframe [] h = absurd h
push_to_all-delivered io full nal keyframe (seat ∷ seats) h =
    let any = fates_of-delivered io full nal keyframe (seat ∷ seats) h in
    cc (any, governor_frame_shed-delivered (fates_of io full nal keyframe (seat ∷ seats)) any)
