-- ===== src/Host/Bridge/Flapping.antt =====
-- A capture process that keeps dialling and never sends a whole frame (crates/host/src/capture/bridge.rs).
use couchlink.Base.{ℕ, ◌≡◌, refl, ◌∙◌, ap, List, [], ◌∷◌, none, some, All}
use couchlink.Host.Bridge.{
  WindowsBridge, Socket, capture, capture_polled, latest_frame, read_frame, read_socket, polled,
  demux, lost, broken, try_reconnect,
}
use couchlink.Host.Bridge.Order.{capture-polled}

-- A client that sends nothing that could be read as a frame, and so breaks the stream.
abbrev pub Breaks : Socket → Type 0
Breaks s = demux 16 s.closed [] s.bytes ≡ lost

-- At each instant the next client is waiting at the listener.
abbrev pub serve : List (ℕ × Socket) → WindowsBridge → WindowsBridge
serve [] b = b
serve ((now, dialling) ∷ later) b = serve later (capture now (some dialling) b).0

latest_frame-broken :
    (b : WindowsBridge) (s : Socket) → b.stream ≡ some s → Breaks s → latest_frame b ≡ broken b
unfolding latest_frame read_frame
latest_frame-broken b s e bad =
    let r : read_frame b ≡ broken b =
      ap (λ o. read_socket o b) e ∙ ap (λ d. polled s.closed d b) bad in
    rw (r, latest_frame) refl

reconnected :
    (now : ℕ) (s : Socket) (b : WindowsBridge)
    → ((capture_polled now (some s) (broken b)).0.stream ≡ some s)
      × ((capture_polled now (some s) (broken b)).0.pending ≡ b.pending)
      × ((capture_polled now (some s) (broken b)).0.respawns ≡ b.respawns)
unfolding try_reconnect
reconnected now s b = (refl, refl, refl)

-- While each client breaks its stream and the next one is already waiting, the capture process is never
-- launched again, however long it goes on and though no frame comes.
pub serve-stuck :
    (rounds : List (ℕ × Socket)) (s : Socket) (b : WindowsBridge)
    → b.stream ≡ some s
    → b.pending ≡ none
    → Breaks s
    → All (λ x. Breaks x.1) rounds
    → (serve rounds b).respawns ≡ b.respawns
serve-stuck [] s b e p bad all = refl
serve-stuck ((now, dialling) ∷ later) s b e p bad (next, all) =
    let step =
      capture-polled now (some dialling) b (broken b) p e (latest_frame-broken b s e bad) in
    let (stream, pending, respawns) = reconnected now dialling b in
    ap (λ x. (serve later x.0).respawns) step
    ∙ serve-stuck later dialling (capture_polled now (some dialling) (broken b)).0 stream
        (pending ∙ p) next all
    ∙ respawns
