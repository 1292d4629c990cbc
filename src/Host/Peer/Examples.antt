-- ===== src/Host/Peer/Examples.antt =====
-- Two packets of input at the same time.
use couchlink.Base.{ℕ, ◌≤◌, ◌≡◌, refl, arith, ◌⊎◌}
use couchlink.Host.Peer.Watermark.{
  Call, outside, loading, loaded, noted, Watermark, go, Reach, here, next, enter, load, exchange,
  retry, quiet, Reach-greatest,
}

-- Both calls have loaded the 2 that was there.
abbrev both_loaded : ℕ → Call
both_loaded =
    go (go (go (go (λ i. outside) 0 (loading 5)) 1 (loading 3)) 0 (loaded 5 2)) 1 (loaded 3 2)

-- The second is first to exchange; the first tries again.
abbrev both_noted : ℕ → Call
both_noted = go (go (go (go both_loaded 1 (noted 3)) 0 (loading 5)) 0 (loaded 5 3)) 0 (noted 5)

abbrev newest_input : Watermark
newest_input = record { wm = 5; at = both_noted }

interleaved : Reach (quiet 2) newest_input
interleaved =
    next
      (next
        (next
          (next
            (next
              (next (next (next here (enter 0 5 refl)) (enter 1 3 refl))
                (load 0 5 2 refl (omega arith)))
              (load 1 3 2 refl (omega arith)))
            (exchange 1 3 2 refl (omega arith) refl))
          (retry 0 5 2 refl (omega arith)))
        (load 0 5 3 refl (omega arith)))
      (exchange 0 5 3 refl (omega arith) refl)

Reach-greatest_example :
    (2 ≤ 5)
    × ((i seq : ℕ) → both_noted i ≡ noted seq → seq ≤ 5)
    × ((newest_input.wm ≡ 2) ⊎ ((i : ℕ) × (both_noted i ≡ noted 5)))
Reach-greatest_example = Reach-greatest 2 newest_input interleaved
