-- ===== src/Proto/VideoFrame/AnnexB/Streams.antt =====
-- `annex_b_is_keyframe` of crates/proto/src/video_frame.rs on whole streams of NAL units.
use couchlink.Base.{
  length-append, ℕ, zero, suc, ◌≤◌, ◌≡◌, refl, ◌∙◌, arith, List, [], ◌∷◌, ◌++◌, Bool, true, false,
  ltb, not, ◌==◌, ◌&&◌, ◌||◌, length, bit_and, ◌⊎◌, inl, inr, Bool-cases,
}
use couchlink.Proto.Buffer.{Bytes}
use couchlink.Proto.VideoFrame.AnnexB.{
  starts_with, long_code, short_code, answer, next, read_header, round, scan, annex_b_is_keyframe,
}

-- A NAL unit: its start code, its header and its payload, which has at least one byte.
pub record Nal : Type 0 where
  pub is_long : Bool
  pub header : ℕ
  pub payload : Bytes

-- What the encoder keeps to: two zeros are not followed by a zero or a one, and the last byte is not zero.
abbrev pub is_payload : Bytes → Bool
is_payload [] = false
is_payload (b ∷ []) = not (b == 0)
is_payload (b ∷ c ∷ []) = not (c == 0)
is_payload (b ∷ c ∷ d ∷ q) = not (b == 0 && c == 0 && (d == 0 || d == 1)) && is_payload (c ∷ d ∷ q)

abbrev pub all_payloads : List Nal → Bool
all_payloads [] = true
all_payloads (n ∷ ns) = is_payload n.payload && all_payloads ns

abbrev pub code_of : Bool → Bytes
code_of true = long_code
code_of false = short_code

abbrev pub stream : List Nal → Bytes
stream [] = []
stream (n ∷ ns) = code_of n.is_long ++ (n.header ∷ (n.payload ++ stream ns))

abbrev pub any_idr : List Nal → Bool
any_idr [] = false
any_idr (n ∷ ns) = bit_and n.header 0x1F == 5 || any_idr ns

-- What may follow a payload: nothing, or at least five bytes.
abbrev IsTail : Bytes → Type 0
IsTail rest = (rest ≡ []) ⊎ (5 ≤ length rest)

round-short : (rest : Bytes) → length rest ≤ 4 → round rest ≡ answer false
unfolding round
round-short rest le = ground arith

scan-answer : (n : ℕ) (rest : Bytes) (b : Bool) → round rest ≡ answer b → scan (suc n) rest ≡ b
unfolding scan
scan-answer n rest b e = rw (e, scan) refl

scan-next : (n : ℕ) (rest more : Bytes) → round rest ≡ next more → scan (suc n) rest ≡ scan n more
unfolding scan
scan-next n rest more e = rw (e, scan) refl

-- A round inside a payload drops one byte.
round-payload :
    (b : ℕ) (q rest : Bytes)
    → is_payload (b ∷ q) ≡ true
    → 5 ≤ length (b ∷ q ++ rest)
    → round (b ∷ q ++ rest) ≡ next (q ++ rest)
unfolding round starts_with
round-payload b [] rest p le = ground arith
round-payload b (c ∷ []) rest p le = ground arith
round-payload b (c ∷ d ∷ q) rest p le = ground arith

payload-tail : (b c : ℕ) (q : Bytes) → is_payload (b ∷ c ∷ q) ≡ true → is_payload (c ∷ q) ≡ true
payload-tail b c [] p = p
payload-tail b c (d ∷ q) p = ground arith

-- What is left is too short for another round.
payload-ends :
    (p rest : Bytes) (r : Bool)
    → IsTail rest
    → length (p ++ rest) ≤ 4
    → ((m : ℕ) → length rest ≤ m → scan m rest ≡ r)
    → false ≡ r
unfolding scan
payload-ends p rest r (inl e) le k = k 0 (rw e (omega arith))
payload-ends p rest r (inr long) le k = absurd (omega (arith, length-append p rest))

payload-round :
    (b : ℕ) (q rest : Bytes) (n : ℕ) (r : Bool)
    → is_payload (b ∷ q) ≡ true
    → IsTail rest
    → ((m : ℕ) → length rest ≤ m → scan m rest ≡ r)
    → scan n (q ++ rest) ≡ r
    → scan (suc n) (b ∷ q ++ rest) ≡ r
payload-round b q rest n r p tail k passed = elim (Bool-cases (ltb 4 (length (b ∷ q ++ rest)))) [
  | inl long ↦
      scan-next n (b ∷ q ++ rest) (q ++ rest) (round-payload b q rest p (ground arith)) ∙ passed
  | inr short ↦
      let le : length (b ∷ q ++ rest) ≤ 4 = ground arith in
      scan-answer n (b ∷ q ++ rest) false (round-short (b ∷ q ++ rest) le)
      ∙ payload-ends (b ∷ q) rest r tail le k
]

-- A payload is passed over.
scan-payload :
    (p rest : Bytes) (n : ℕ) (r : Bool)
    → is_payload p ≡ true
    → IsTail rest
    → length (p ++ rest) ≤ n
    → ((m : ℕ) → length rest ≤ m → scan m rest ≡ r)
    → scan n (p ++ rest) ≡ r
scan-payload [] rest n r p tail le k = cc
scan-payload (b ∷ q) rest zero r p tail le k = absurd (omega arith)
scan-payload (b ∷ []) rest (suc n) r p tail le k =
    payload-round b [] rest n r p tail k (k n (omega arith))
scan-payload (b ∷ c ∷ q) rest (suc n) r p tail le k =
    payload-round b (c ∷ q) rest n r p tail k
      (scan-payload (c ∷ q) rest n r (payload-tail b c q p) tail (omega arith) k)

-- A start code brings the header to be read.
round-code :
    (is_long : Bool) (h : ℕ) (rest : Bytes)
    → 1 ≤ length rest
    → round (code_of is_long ++ h ∷ rest) ≡ read_header (h ∷ rest)
unfolding round starts_with
round-code true h rest le = ground arith
round-code false h rest le = ground arith

or-found : (b r : Bool) → b ≡ true → true ≡ (b || r)
or-found b r e = ground arith

or-passed : (b r : Bool) → b ≡ false → r ≡ (b || r)
or-passed b r e = ground arith

payload-length : (p : Bytes) → is_payload p ≡ true → 1 ≤ length p
payload-length [] e = cc
payload-length (b ∷ p) e = omega arith

-- A unit's header decides, or the scan goes on behind it.
scan-unit :
    (is_long : Bool) (h : ℕ) (p rest : Bytes) (n : ℕ) (r : Bool)
    → is_payload p ≡ true
    → IsTail rest
    → length (code_of is_long ++ (h ∷ (p ++ rest))) ≤ n
    → ((m : ℕ) → length rest ≤ m → scan m rest ≡ r)
    → scan n (code_of is_long ++ (h ∷ (p ++ rest))) ≡ (bit_and h 0x1F == 5 || r)
unfolding read_header
scan-unit is_long h p rest zero r ok tail le k = absurd (some_bytes is_long le)
  where
    some_bytes : (l : Bool) → length (code_of l ++ (h ∷ (p ++ rest))) ≤ 0 → ⊥
    some_bytes true le = omega arith
    some_bytes false le = omega arith
scan-unit is_long h p rest (suc n) r ok tail le k =
    let read =
      round-code is_long h (p ++ rest)
        (ground (arith, length-append p rest, payload-length p ok)) in
    elim (Bool-cases (bit_and h 0x1F == 5)) [
      | inl y ↦ scan-answer n _ true (read ∙ rw y refl) ∙ or-found _ r y
      | inr other ↦
          scan-next n _ (p ++ rest) (read ∙ rw other refl)
          ∙ scan-payload p rest n r ok tail (fits is_long le) k
          ∙ or-passed _ r other
    ]
  where
    fits : (l : Bool) → length (code_of l ++ (h ∷ (p ++ rest))) ≤ suc n → length (p ++ rest) ≤ n
    fits true le = omega arith
    fits false le = omega arith

stream-IsTail : (ns : List Nal) → all_payloads ns ≡ true → IsTail (stream ns)
stream-IsTail [] ok = inl refl
stream-IsTail (n ∷ ns) ok = inr (unit_length n.is_long)
  where
    unit_length : (l : Bool) → 5 ≤ length (code_of l ++ (n.header ∷ (n.payload ++ stream ns)))
    unit_length true = ground (arith, length-append n.payload (stream ns), payload-length n.payload)
    unit_length false =
        ground (arith, length-append n.payload (stream ns), payload-length n.payload)

scan-stream :
    (ns : List Nal) (n : ℕ)
    → all_payloads ns ≡ true
    → length (stream ns) ≤ n
    → scan n (stream ns) ≡ any_idr ns
unfolding scan
scan-stream [] zero ok le = refl
scan-stream [] (suc n) ok le = scan-answer n [] false (round-short [] (omega arith))
scan-stream (u ∷ us) n ok le =
    let rest_ok : all_payloads us ≡ true = ground arith in
    scan-unit u.is_long u.header u.payload (stream us) n (any_idr us) (ground arith)
      (stream-IsTail us rest_ok) le (λ m. scan-stream us m rest_ok)

-- A stream of NAL units, each behind a start code of three or four bytes and with a payload as the encoder
-- writes them (not empty, no two zeros before a zero or a one, no zero at the end), is a key frame exactly
-- when one of its units is an IDR slice (type 5).
pub annex_b_is_keyframe-stream :
    (ns : List Nal) → all_payloads ns ≡ true → annex_b_is_keyframe (stream ns) ≡ any_idr ns
unfolding annex_b_is_keyframe
annex_b_is_keyframe-stream ns ok = scan-stream ns (length (stream ns)) ok (omega arith)
