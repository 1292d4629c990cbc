-- ===== src/Companion/Examples.antt =====
-- Two connections race for one slot, and a client plays.
use couchlink.Base.{◌↔◌, ℕ, ◌≡◌, refl, [], ◌∷◌, some, none, true, map}
use couchlink.Base.Slots.{find, put}
use couchlink.Proto.PadFrame.{neutral}
use couchlink.Pad.MapFrame.{pad_frame_to_dualsense_usb_report}
use couchlink.Companion.Registry.{
  SlotRegistry, register, Companion, hello, miss, plug_in, insert, reuse, leave, started, Reach,
  here, next, preallocate, get_or_create,
}
use couchlink.Companion.Registry.Identity.{IsRegistry, driving-same, Reach-kept}
use couchlink.Companion.Session.{serve_tcp, served, disconnected, client_bytes}
use couchlink.Companion.Session.Applied.{serve_tcp-client}

empty-IsRegistry : IsRegistry [] 0
unfolding find
empty-IsRegistry = record { known = λ s b. cc; apart = λ s t b. cc }

-- Both find slot 1 empty, both let the driver make a controller, and the second one registers first.
race : (t : Companion) × Reach (started [] 0) t
unfolding find
race =
    let both = next (next here (hello 0 1 refl)) (hello 1 1 refl) in
    let missed = next (next both (miss 0 1 refl refl)) (miss 1 1 refl refl) in
    let made = next (next missed (plug_in 0 1 refl)) (plug_in 1 1 refl) in
    (_, next (next made (insert 1 1 1 refl)) (insert 0 1 0 refl))

driving-same_example : (◌≡◌ {A = ℕ} 1 1) ↔ (◌≡◌ {A = ℕ} 1 1)
unfolding race register find put
driving-same_example = driving-same [] 0 race.0 empty-IsRegistry race.1 0 1 1 1 1 1 refl refl

abbrev three_seats : SlotRegistry
three_seats = (1, 0) ∷ (2, 1) ∷ (3, 2) ∷ []

preallocated : preallocate 1 (some 0 ∷ some 1 ∷ some 2 ∷ []) [] ≡ three_seats
unfolding preallocate get_or_create register find put
preallocated = refl

rejoin : (t : Companion) × Reach (started three_seats 3) t
unfolding find
rejoin =
    let seated = next (next here (hello 0 2 refl)) (reuse 0 2 1 refl refl) in
    (_, next (next (next seated (leave 0 2 1 refl)) (hello 0 2 refl)) (reuse 0 2 1 refl refl))

Reach-kept_example : find 2 rejoin.0.registry ≡ some 1
unfolding find
Reach-kept_example = Reach-kept {s = started three_seats 3} {t = rejoin.0} 2 1 rejoin.1 refl

serve_tcp-client_example :
    serve_tcp none (λ i. true) (client_bytes 2 (neutral ∷ neutral ∷ [])) three_seats ≡ (
      three_seats,
      served 2 1 (map pad_frame_to_dualsense_usb_report (neutral ∷ neutral ∷ [])) disconnected,
    )
unfolding find
serve_tcp-client_example =
    serve_tcp-client 2 1 (neutral ∷ neutral ∷ []) none (λ i. true) three_seats refl (λ i. refl)
