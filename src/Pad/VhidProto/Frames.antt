-- ===== src/Pad/VhidProto/Frames.antt =====
-- Round trips of the companion's frames, and frames in a stream of bytes.
use couchlink.Base.{
  le→ltb, ap, false, ℕ, zero, suc, ◌+◌, ◌*◌, ◌/◌, ◌%◌, ◌≤◌, ◌≡◌, ◌≢◌, refl, ◌∙◌, arith, List, [],
  ◌∷◌, ◌++◌, some, ltb, length, take, drop, min, take-append_self, drop-append_self, length-append,
  length-take, All, take-all, replicate,
}
use mathlib.Core.List.{append-nil}
use couchlink.Proto.Buffer.{Bytes}
use couchlink.Pad.VhidProto.{
  ok, encode_slot_hello, decode_slot_hello, encode_input, decode_input, encode_output,
  decode_output, take_output_frame, ds_usb_input_len, drain, poll_output,
}

-- A slot is decoded from its own hello, whatever bytes follow it.
pub decode_slot_hello-encode_slot_hello :
    (slot : ℕ) (rest : Bytes) → decode_slot_hello (encode_slot_hello slot ++ rest) ≡ ok slot
unfolding decode_slot_hello encode_slot_hello
decode_slot_hello-encode_slot_hello slot rest = ground arith

take-exact : (n : ℕ) (xs ys : Bytes) → length xs ≡ n → take n (xs ++ ys) ≡ xs
take-exact n xs ys e = rw (← e) (take-append_self xs ys)

drop-exact : (n : ℕ) (xs ys : Bytes) → length xs ≡ n → drop n (xs ++ ys) ≡ ys
drop-exact n xs ys e = rw (← e) (drop-append_self xs ys)

-- An input report of 64 bytes is decoded from its own frame, whatever bytes follow it.
pub decode_input-encode_input :
    (report rest : Bytes)
    → length report ≡ ds_usb_input_len
    → decode_input (encode_input report ++ rest) ≡ ok report
unfolding decode_input encode_input
decode_input-encode_input report rest full =
    let long : ltb (length (encode_input report ++ rest)) (4 + 1 + ds_usb_input_len) ≡ false =
      le→ltb _ _ (omega (arith, length-append report rest)) in
    rw long (ap ok (take-exact 64 report rest full))

-- The header of an output frame for `n` bytes, and the bytes after it.
framed : ℕ → Bytes → Bytes
framed n rest = b'D' ∷ b'S' ∷ b'V' ∷ b'O' ∷ 1 ∷ n % 256 ∷ n / 256 ∷ rest

decode_output-framed :
    (body rest : Bytes) → decode_output (framed (length body) (body ++ rest)) ≡ ok body
unfolding decode_output framed
decode_output-framed body rest =
    let n = length body in
    let total : n % 256 + n / 256 * 256 ≡ n = omega arith in
    let whole : 7 + n ≤ length (framed n (body ++ rest)) = omega (arith, length-append body rest) in
    let head = le→ltb (length (framed n (body ++ rest))) 7 (omega arith) in
    let long = le→ltb (length (framed n (body ++ rest))) (7 + n) whole in
    rw total (rw head (rw long (ap ok (take-append_self body rest))))

take_output_frame-framed :
    (body rest : Bytes)
    → take_output_frame (framed (length body) (body ++ rest)) ≡ (rest, some body)
unfolding take_output_frame framed
take_output_frame-framed body rest =
    let n = length body in
    let total : n % 256 + n / 256 * 256 ≡ n = omega arith in
    let whole : 7 + n ≤ length (framed n (body ++ rest)) = omega (arith, length-append body rest) in
    let head = le→ltb (length (framed n (body ++ rest))) 7 (omega arith) in
    let long = le→ltb (length (framed n (body ++ rest))) (7 + n) whole in
    let left : drop (7 + n) (framed n (body ++ rest)) ≡ rest =
      drop-exact (7 + n) (framed n body) rest (omega arith) in
    rw total (rw head (rw long (cc (take-append_self body rest, left))))

take-min : (n : ℕ) (xs : Bytes) → take (min (length xs) n) xs ≡ take n xs
take-min zero [] = refl
take-min (suc n) [] = let nothing : min 0 (suc n) ≡ 0 = omega arith in rw nothing refl
take-min zero (x ∷ xs) = let nothing : min (suc (length xs)) 0 ≡ 0 = omega arith in rw nothing refl
take-min (suc n) (x ∷ xs) =
    let both : min (suc (length xs)) (suc n) ≡ suc (min (length xs) n) = omega arith in
    let rest = take-min n xs in rw both (rw rest refl)

encode_output-framed :
    (report rest : Bytes)
    → encode_output report ++ rest ≡ framed (length (take 65535 report)) (take 65535 report ++ rest)
unfolding encode_output framed
encode_output-framed report rest =
    let size : length (take 65535 report) ≡ min (length report) 65535 =
      omega (arith, length-take 65535 report) in
    let body = take-min 65535 report in rw size (rw body refl)

-- From the frame of an output report its first 65535 bytes are decoded, whatever bytes follow: a
-- longer report is cut, and no other is changed.
pub decode_output-encode_output :
    (report rest : Bytes) → decode_output (encode_output report ++ rest) ≡ ok (take 65535 report)
decode_output-encode_output report rest =
    ap decode_output (encode_output-framed report rest)
    ∙ decode_output-framed (take 65535 report) rest

take_output_frame-encode_output :
    (report rest : Bytes)
    → length report ≤ 65535
    → take_output_frame (encode_output report ++ rest) ≡ (rest, some report)
take_output_frame-encode_output report rest small =
    ap take_output_frame (encode_output-framed report rest)
    ∙ take_output_frame-framed (take 65535 report) rest
    ∙ ap (λ r. (rest, some r)) (take-all 65535 report small)

encode_output-length : (report : Bytes) → 7 ≤ length (encode_output report)
unfolding encode_output
encode_output-length report = omega arith

-- The frames of some reports, one after the other.
abbrev pub stream : List Bytes → Bytes
stream [] = []
stream (r ∷ rs) = encode_output r ++ stream rs

drain-nothing : (n : ℕ) → drain (suc n) [] ≡ ([], [])
unfolding drain take_output_frame
drain-nothing n = refl

drain-zero : (buf : Bytes) → drain 0 buf ≡ ([], buf)
unfolding drain
drain-zero buf = refl

drain-some :
    (n : ℕ) (buf left frame : Bytes)
    → take_output_frame buf ≡ (left, some frame)
    → drain (suc n) buf ≡ (frame ∷ (drain n left).0, (drain n left).1)
unfolding drain
drain-some n buf left frame e = rw (e, drain) (rw e refl)

-- From a buffer of whole frames, each of a report of at most 65535 bytes, the loop takes every report,
-- in order, and leaves nothing, when it may go on for at least as many rounds as there are bytes.
pub drain-stream :
    (rs : List Bytes) (n : ℕ)
    → All (λ r. length r ≤ 65535) rs
    → length (stream rs) ≤ n
    → drain n (stream rs) ≡ (rs, [])
drain-stream [] zero small enough = drain-zero []
drain-stream [] (suc n) small enough = drain-nothing n
drain-stream (r ∷ rs) zero small enough =
    absurd (omega (arith, encode_output-length r, length-append (encode_output r) (stream rs)))
drain-stream (r ∷ rs) (suc n) small enough =
    let rest =
      drain-stream rs n small.1
        (omega (arith, encode_output-length r, length-append (encode_output r) (stream rs))) in
    let first = take_output_frame-encode_output r (stream rs) small.0 in
    drain-some n _ (stream rs) r first ∙ ap (λ p. (r ∷ p.0, p.1)) rest

drain-garbage :
    (n b : ℕ) (buf : Bytes) → b ≢ b'D' → 6 ≤ length buf → drain (suc n) (b ∷ buf) ≡ ([], buf)
unfolding drain take_output_frame
drain-garbage n b buf garbage enough = ground arith

-- One call of `poll_output` after another, while no bytes come: what each call gives, and the buffer at the end.
abbrev pub polls : ℕ → Bytes → List (List Bytes) × Bytes
polls zero rx_buf = ([], rx_buf)
polls (suc k) rx_buf =
    let (frames, left) = poll_output [] rx_buf in
    let (later, rest) = polls k left in (frames ∷ later, rest)

polls-suc :
    (k : ℕ) (buf : Bytes) {frames : List Bytes} {left : Bytes}
    → drain (suc (length buf)) buf ≡ (frames, left)
    → polls (suc k) buf ≡ (frames ∷ (polls k left).0, (polls k left).1)
unfolding poll_output
polls-suc k buf e = rw (append-nil buf) (rw e refl)

stream-length : (rs : List Bytes) → rs ≢ [] → 7 ≤ length (stream rs)
stream-length [] some_report = absurd (some_report refl)
stream-length (r ∷ rs) some_report =
    omega (arith, encode_output-length r, length-append (encode_output r) (stream rs))

-- Stray bytes hold up the reports behind them: with `n` bytes other than `D` before the frames of one or more
-- reports, each of at most 65535 bytes, and no bytes coming, `n` calls of `poll_output` give nothing though
-- all these frames are in the buffer; the call after them gives the reports, all of them and in order.
pub polls-delayed :
    (garbage : Bytes) (rs : List Bytes)
    → All (λ b. b ≢ b'D') garbage
    → rs ≢ []
    → All (λ r. length r ≤ 65535) rs
    → polls (suc (length garbage)) (garbage ++ stream rs)
      ≡ (replicate (length garbage) [] ++ rs ∷ [], [])
polls-delayed [] rs none_of some_report small =
    polls-suc 0 (stream rs) (drain-stream rs (suc (length (stream rs))) small (omega arith))
polls-delayed (b ∷ garbage) rs (other, none_of) some_report small =
    polls-suc (suc (length garbage)) (b ∷ (garbage ++ stream rs)) (
      drain-garbage (suc (length (garbage ++ stream rs))) b (garbage ++ stream rs) other
        (omega (arith, stream-length rs some_report, length-append garbage (stream rs))))
    ∙ ap (λ p. ([] ∷ p.0, p.1)) (polls-delayed garbage rs none_of some_report small)
