-- ===== src/Signaling/Players/Epochs.antt =====
-- The epochs of a slot table: each registration and each replay has a fresh one, until the counter
-- stands at its limit.
use couchlink.Base.{ℕ, ◌+◌, ◌≤◌, ◌≡◌, refl, arith, List, [], ◌∷◌, Option, none, some, map, length}
use couchlink.Signaling.Channels.{Channels}
use couchlink.Signaling.Players.{
  PlayerTable, replay_loop, replay_for_host, count_occupied, occupied, players_from, iter, bump,
  u64_max,
}

-- The epochs of a replay rise by one from `e` on.
abbrev pub Rising : ℕ → List (ℕ × ℕ) → Type 0
Rising e [] = Unit {0}
Rising e (p ∷ ps) = (p.1 ≡ e + 1) × Rising (e + 1) ps

module _ (ch : Channels) where
  open ch use {Sender}

  abbrev Replayed : ℕ → ℕ → List (Option Sender) → ℕ × List (ℕ × ℕ) → Type 0
  Replayed i e ss r =
      (map (λ p. p.0) r.1 ≡ map (λ p. p.0) (players_from ch i ss))
      × Rising e r.1
      × (r.0 ≡ e + count_occupied ch ss)

  replay_loop-Replayed :
      (ss : List (Option Sender)) (i e : ℕ)
      → e + length ss ≤ u64_max
      → Replayed i e ss (replay_loop ch i ss e)
  unfolding replay_loop count_occupied players_from
  replay_loop-Replayed [] i e h = (refl, tt, omega arith)
  replay_loop-Replayed (none ∷ ss) i e h = replay_loop-Replayed ss (i + 1) e (omega arith)
  replay_loop-Replayed (some s ∷ ss) i e h =
      let next : bump e ≡ e + 1 = omega arith in
      let (slots, rising, last) = replay_loop-Replayed ss (i + 1) (e + 1) (omega arith) in
      rw next (ground (arith, slots), (refl, rising), omega (arith, last))

  -- While the epoch is not within the number of slots of its limit, a reconnecting host is told of every
  -- seated slot once, in order, each with an epoch of its own: they rise by one from the table's epoch,
  -- the last is the table's new epoch, and no slot changes.
  pub replay_for_host_lem :
      (t : PlayerTable ch)
      → t.epoch + length t.slots ≤ u64_max
      → let (t', out) = replay_for_host ch t in
        (map (λ p. p.0) out ≡ map (λ p. p.0) (iter ch t))
        × Rising t.epoch out
        × (t'.epoch ≡ t.epoch + occupied ch t)
        × (t'.slots ≡ t.slots)
  unfolding replay_for_host iter occupied
  replay_for_host_lem t h =
      let (slots, rising, last) = replay_loop-Replayed t.slots 0 t.epoch h in
      (slots, rising, last, refl)
