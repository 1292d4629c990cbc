-- ===== src/Companion/Session/Applied.antt =====
-- From a player's frames to the controller of the player's slot.
use couchlink.Base.{
  bytes_eq, ℕ, zero, suc, ◌+◌, ◌≤◌, ◌≡◌, refl, ap, ◌∙◌, arith, List, [], ◌∷◌, ◌++◌, Option, some,
  Bool, true, false, ltb, map, length, take, drop, length-append, le→ltb,
}
use couchlink.Base.Slots.{find}
use couchlink.Proto.Buffer.{Bytes}
use couchlink.Proto.PadFrame.{PadFrame}
use couchlink.Pad.MapFrame.{pad_frame_to_dualsense_usb_report}
use couchlink.Pad.VhidProto.{ok, encode_slot_hello, decode_slot_hello, encode_input, decode_input}
use couchlink.Companion.Registry.{SlotRegistry, get_or_create}
use couchlink.Companion.Session.{
  dsvh_magic, apply, apply_all, client_bytes, serve_duplex, serve_tcp, read_slot_hello, served,
  disconnected, frame_len,
}

apply-length : (f : PadFrame) → length (apply f) ≡ frame_len
unfolding apply encode_input pad_frame_to_dualsense_usb_report
apply-length f = refl

apply-decoded : (f : PadFrame) → decode_input (apply f) ≡ ok (pad_frame_to_dualsense_usb_report f)
unfolding apply encode_input decode_input pad_frame_to_dualsense_usb_report
apply-decoded f = refl

apply-magic : (f : PadFrame) → bytes_eq (take 4 (apply f)) dsvh_magic ≡ true
unfolding apply encode_input
apply-magic f = refl

take-apply : (f : PadFrame) (rest : Bytes) → take frame_len (apply f ++ rest) ≡ apply f
unfolding apply encode_input pad_frame_to_dualsense_usb_report
take-apply f rest = refl

drop-apply : (f : PadFrame) (rest : Bytes) → drop frame_len (apply f ++ rest) ≡ rest
unfolding apply encode_input pad_frame_to_dualsense_usb_report
drop-apply f rest = refl

-- A round on a client's frame.
serve_duplex-apply :
    (n : ℕ) (takes : ℕ → Bool) (k : ℕ) (f : PadFrame) (rest : Bytes)
    → takes k ≡ true
    → serve_duplex (suc n) takes k (apply f ++ rest) ≡ (
      pad_frame_to_dualsense_usb_report f ∷ (serve_duplex n takes (k + 1) rest).0,
      (serve_duplex n takes (k + 1) rest).1,
    )
unfolding serve_duplex
serve_duplex-apply n takes k f rest yes_taken =
    let long : ltb (length (apply f ++ rest)) frame_len ≡ false =
      le→ltb _ _ (omega (arith, apply-length f, length-append (apply f) rest)) in
    rw long (
      rw (take-apply f rest) (
        rw (apply-magic f)
          (rw (apply-decoded f, serve_duplex) (rw yes_taken (rw (drop-apply f rest) refl)))))

serve_duplex-apply_all :
    (frames : List PadFrame) (n : ℕ) (takes : ℕ → Bool) (k : ℕ)
    → length (apply_all frames) ≤ n
    → ((i : ℕ) → takes i ≡ true)
    → serve_duplex n takes k (apply_all frames)
      ≡ (map pad_frame_to_dualsense_usb_report frames, disconnected)
unfolding serve_duplex
serve_duplex-apply_all [] zero takes k le all = refl
serve_duplex-apply_all [] (suc n) takes k le all = refl
serve_duplex-apply_all (f ∷ frames) zero takes k le all =
    absurd (omega (arith, apply-length f, length-append (apply f) (apply_all frames)))
serve_duplex-apply_all (f ∷ frames) (suc n) takes k le all =
    serve_duplex-apply n takes k f (apply_all frames) (all k)
    ∙ ap (λ r. (pad_frame_to_dualsense_usb_report f ∷ r.0, r.1))
        (serve_duplex-apply_all frames n takes (k + 1)
          (omega (arith, apply-length f, length-append (apply f) (apply_all frames))) all)

read_slot_hello-client :
    (slot : ℕ) (rest : Bytes) → read_slot_hello (encode_slot_hello slot ++ rest) ≡ some slot
unfolding read_slot_hello encode_slot_hello decode_slot_hello
read_slot_hello-client slot rest = ground arith

drop-hello : (slot : ℕ) (rest : Bytes) → drop 6 (encode_slot_hello slot ++ rest) ≡ rest
unfolding encode_slot_hello
drop-hello slot rest = refl

get_or_create-known :
    (slot b : ℕ) (created : Option ℕ) (reg : SlotRegistry)
    → find slot reg ≡ some b
    → get_or_create slot created reg ≡ (reg, some b)
unfolding get_or_create
get_or_create-known slot b created reg e = rw (e, get_or_create) refl

-- What a player's client writes drives the controller of the player's slot: it is given exactly the reports of
-- the frames, each once and in order, until the client hangs up, when the slot has a controller and that
-- takes its reports.
pub serve_tcp-client :
    (slot backend : ℕ) (frames : List PadFrame) (created : Option ℕ) (takes : ℕ → Bool)
    (reg : SlotRegistry)
    → find slot reg ≡ some backend
    → ((i : ℕ) → takes i ≡ true)
    → serve_tcp created takes (client_bytes slot frames) reg
      ≡ (reg, served slot backend (map pad_frame_to_dualsense_usb_report frames) disconnected)
unfolding serve_tcp
serve_tcp-client slot backend frames created takes reg e all =
    let hello = read_slot_hello-client slot (apply_all frames) in
    let kept = get_or_create-known slot backend created reg e in
    let rounds : length (apply_all frames) ≤ length (client_bytes slot frames) =
      omega (arith, length-append (encode_slot_hello slot) (apply_all frames)) in
    let session =
      serve_duplex-apply_all frames (length (client_bytes slot frames)) takes 0 rounds all in
    rw (hello, serve_tcp)
      (rw (kept, serve_tcp) (rw (drop-hello slot (apply_all frames)) (cc session)))
