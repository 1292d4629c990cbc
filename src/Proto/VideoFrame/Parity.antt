-- ===== src/Proto/VideoFrame/Parity.antt =====
-- The parity of an access unit: mixing every piece twice cancels, so the one missing piece is what
-- the others and the parity leave. `recover_fragment` is proved to return just that piece.
use couchlink.Base.{
  ℕ, zero, suc, ◌+◌, ◌-◌, ◌<◌, ◌≤◌, ◌≡◌, refl, ap, ◌∙◌, subst, arith, List, [], ◌∷◌, ◌++◌, length,
  take, replicate, set, get_elem?, none, some, bit_xor, if◌then◌else◌, ◌==◌, length-replicate,
}
use couchlink.Base.Bits.{bit_xor_comm, bit_xor_assoc, bit_xor_self, bit_xor-zero, zero-bit_xor}
use couchlink.Proto.Buffer.{Bytes, le_bytes}
use couchlink.Proto.VideoFrame.Send.{xor_into}
use couchlink.Proto.VideoFrame.Assembler.{
  Parts, missing, concat_parts, mix_parts, recover_with, recover_fragment,
}

-- Every piece mixed in.
unfoldable pub mix : Bytes → List Bytes → Bytes
mix acc [] = acc
mix acc (c ∷ cs) = mix (xor_into acc c) cs

-- Each part is missing or is the piece of its place.
abbrev pub Fits : List Bytes → Parts → Type 0
Fits [] [] = Unit {0}
Fits [] (p ∷ ps) = ⊥
Fits (c ∷ cs) [] = ⊥
Fits (c ∷ cs) (none ∷ ps) = Fits cs ps
Fits (c ∷ cs) (some p ∷ ps) = (p ≡ c) × Fits cs ps

-- All pieces are full, but for the last, which may be short.
abbrev pub IsCut : ℕ → List Bytes → Type 0
IsCut cap [] = Unit {0}
IsCut cap (c ∷ []) = length c ≤ cap
IsCut cap (c ∷ d ∷ cs) = (length c ≡ cap) × IsCut cap (d ∷ cs)

abbrev pub last_length : List Bytes → ℕ
last_length [] = 0
last_length (c ∷ []) = length c
last_length (c ∷ d ∷ cs) = last_length (d ∷ cs)

-- All pieces, one after the other.
abbrev pub joined : List Bytes → Bytes
joined [] = []
joined (c ∷ cs) = c ++ joined cs

swap_bytes : (x b c : ℕ) → bit_xor (bit_xor x b) c ≡ bit_xor (bit_xor x c) b
swap_bytes x b c = rw (bit_xor_assoc x b c, bit_xor_assoc x c b) (ap (bit_xor x) (bit_xor_comm b c))

cancel_byte : (x b : ℕ) → bit_xor (bit_xor x b) b ≡ x
cancel_byte x b = rw (bit_xor_assoc x b b, bit_xor_self b) (bit_xor-zero x)

xor_into_comm : (a p q : Bytes) → xor_into (xor_into a p) q ≡ xor_into (xor_into a q) p
unfolding xor_into
xor_into_comm [] p q = refl
xor_into_comm (x ∷ a) [] [] = refl
xor_into_comm (x ∷ a) [] (c ∷ q) = refl
xor_into_comm (x ∷ a) (b ∷ p) [] = refl
xor_into_comm (x ∷ a) (b ∷ p) (c ∷ q) = rw (swap_bytes x b c, xor_into_comm a p q)

xor_into_twice : (a p : Bytes) → xor_into (xor_into a p) p ≡ a
unfolding xor_into
xor_into_twice [] p = refl
xor_into_twice (x ∷ a) [] = refl
xor_into_twice (x ∷ a) (b ∷ p) = rw (cancel_byte x b, xor_into_twice a p)

pub length-xor_into : (a p : Bytes) → length (xor_into a p) ≡ length a
unfolding xor_into
length-xor_into [] p = refl
length-xor_into (x ∷ a) [] = refl
length-xor_into (x ∷ a) (b ∷ p) = ap suc (length-xor_into a p)

mix-xor_into : (cs : List Bytes) (a p : Bytes) → mix (xor_into a p) cs ≡ xor_into (mix a cs) p
unfolding mix
mix-xor_into [] a p = refl
mix-xor_into (c ∷ cs) a p =
    ap (λ t. mix t cs) (xor_into_comm a p c) ∙ mix-xor_into cs (xor_into a c) p

-- Mixing the same pieces in twice changes nothing.
mix_twice : (cs : List Bytes) (a : Bytes) → mix (mix a cs) cs ≡ a
unfolding mix
mix_twice [] a = refl
mix_twice (c ∷ cs) a = rw (mix-xor_into cs a c, xor_into_twice (mix a cs) c) (mix_twice cs a)

pub length-mix : (cs : List Bytes) (a : Bytes) → length (mix a cs) ≡ length a
unfolding mix
length-mix [] a = refl
length-mix (c ∷ cs) a = length-mix cs (xor_into a c) ∙ length-xor_into a c

-- On zeros a piece stands as it is, padded.
take-xor_into_zeros :
    (n : ℕ) (c : Bytes) → length c ≤ n → take (length c) (xor_into (replicate n 0) c) ≡ c
unfolding xor_into
take-xor_into_zeros n [] h = refl
take-xor_into_zeros zero (b ∷ c) h = absurd (omega arith)
take-xor_into_zeros (suc n) (b ∷ c) h = rw (zero-bit_xor b, take-xor_into_zeros n c (omega arith))

xor_into_zeros : (n : ℕ) (c : Bytes) → length c ≡ n → xor_into (replicate n 0) c ≡ c
unfolding xor_into
xor_into_zeros zero [] h = refl
xor_into_zeros zero (b ∷ c) h = absurd (omega arith)
xor_into_zeros (suc n) [] h = absurd (omega arith)
xor_into_zeros (suc n) (b ∷ c) h = rw (zero-bit_xor b, xor_into_zeros n c (omega arith))

pub length-Fits : (cs : List Bytes) (ps : Parts) → Fits cs ps → length ps ≡ length cs
length-Fits [] [] h = refl
length-Fits [] (p ∷ ps) h = absurd h
length-Fits (c ∷ cs) [] h = absurd h
length-Fits (c ∷ cs) (none ∷ ps) h = ap suc (length-Fits cs ps h)
length-Fits (c ∷ cs) (some p ∷ ps) h = ap suc (length-Fits cs ps h.1)

pub Fits-replicate : (cs : List Bytes) → Fits cs (replicate (length cs) none)
Fits-replicate [] = tt
Fits-replicate (c ∷ cs) = Fits-replicate cs

pub Fits-set :
    (cs : List Bytes) (ps : Parts) (i : ℕ) (c : Bytes)
    → Fits cs ps
    → get_elem? cs i ≡ some c
    → Fits cs (set ps i (some c))
Fits-set [] ps i c h e = cc
Fits-set (d ∷ cs) [] i c h e = absurd h
Fits-set (d ∷ cs) (none ∷ ps) zero c h e = (cc, h)
Fits-set (d ∷ cs) (some p ∷ ps) zero c h e = (cc, h.1)
Fits-set (d ∷ cs) (none ∷ ps) (suc i) c h e = Fits-set cs ps i c h e
Fits-set (d ∷ cs) (some p ∷ ps) (suc i) c h e = (h.0, Fits-set cs ps i c h.1 e)

-- With nothing missing the parts are the pieces.
pub concat_parts-full :
    (cs : List Bytes) (ps : Parts) (i : ℕ)
    → Fits cs ps
    → missing i ps ≡ []
    → concat_parts ps ≡ joined cs
unfolding concat_parts missing
concat_parts-full [] [] i h e = refl
concat_parts-full [] (p ∷ ps) i h e = absurd h
concat_parts-full (c ∷ cs) [] i h e = absurd h
concat_parts-full (c ∷ cs) (none ∷ ps) i h e = cc
concat_parts-full (c ∷ cs) (some p ∷ ps) i h e = rw (h.0, concat_parts-full cs ps (i + 1) h.1 e)

mix_parts-full :
    (cs : List Bytes) (ps : Parts) (i gone : ℕ) (acc : Bytes)
    → Fits cs ps
    → missing i ps ≡ []
    → gone < i
    → mix_parts i gone ps acc ≡ some (mix acc cs)
unfolding mix_parts missing mix
mix_parts-full [] [] i gone acc h e lt = refl
mix_parts-full [] (p ∷ ps) i gone acc h e lt = absurd h
mix_parts-full (c ∷ cs) [] i gone acc h e lt = absurd h
mix_parts-full (c ∷ cs) (none ∷ ps) i gone acc h e lt = cc
mix_parts-full (c ∷ cs) (some p ∷ ps) i gone acc h e lt =
    ground (arith, mix_parts-full cs ps (i + 1) gone (xor_into acc p))

remix :
    (cs : List Bytes) (acc c p : Bytes) → p ≡ c → xor_into (mix (xor_into acc c) cs) p ≡ mix acc cs
remix cs acc c p e = rw (e, mix-xor_into cs acc c) (xor_into_twice (mix acc cs) c)

-- With one part missing, the others cancel against the whole mix.
mix_parts-gap :
    (cs : List Bytes) (ps : Parts) (i m : ℕ) (acc : Bytes)
    → Fits cs ps
    → missing i ps ≡ m ∷ []
    → (c : Bytes) × (get_elem? cs (m - i) ≡ some c)
      × (i ≤ m)
      × (mix_parts i m ps (mix acc cs) ≡ some (xor_into acc c))
unfolding mix_parts missing mix
mix_parts-gap [] [] i m acc h e = cc
mix_parts-gap [] (p ∷ ps) i m acc h e = absurd h
mix_parts-gap (c ∷ cs) [] i m acc h e = absurd h
mix_parts-gap (c ∷ cs) (none ∷ ps) i m acc h e = (
  c,
  (let start : m - i ≡ 0 = ground arith in rw start refl),
  ground arith,
  ground (
    arith,
    mix_parts-full cs ps (i + 1) m (mix (xor_into acc c) cs),
    mix_twice cs (xor_into acc c),
  ),
)
mix_parts-gap (c ∷ cs) (some p ∷ ps) i m acc h e =
    let (d, at, le, r) = mix_parts-gap cs ps (i + 1) m acc h.1 e in
    let step : m - i ≡ suc (m - (i + 1)) = omega arith in
    (d, rw step at, omega arith, ground (arith, remix cs acc c p h.0, r))

-- What `recover_fragment` keeps is the length of the missing piece.
kept_length :
    (cap : ℕ) (cs : List Bytes) (m : ℕ) (c : Bytes)
    → IsCut cap cs
    → get_elem? cs m ≡ some c
    → ((if m + 1 == length cs then last_length cs else cap) ≡ length c) × (length c ≤ cap)
kept_length cap [] m c h e = cc
kept_length cap (d ∷ []) zero c h e = ground arith
kept_length cap (d ∷ []) (suc m) c h e = cc
kept_length cap (d ∷ f ∷ cs) zero c h e = ground arith
kept_length cap (d ∷ f ∷ cs) (suc m) c h e = ground (arith, kept_length cap (f ∷ cs) m c h.1 e)

last_length-le : (cap : ℕ) (cs : List Bytes) → IsCut cap cs → last_length cs ≤ cap
last_length-le cap [] h = omega arith
last_length-le cap (c ∷ []) h = h
last_length-le cap (c ∷ d ∷ cs) h = last_length-le cap (d ∷ cs) h.1

-- The parity payload of the pieces.
abbrev pub parity_of : ℕ → List Bytes → Bytes
parity_of cap cs = le_bytes 2 (last_length cs) ++ mix (replicate cap 0) cs

module _ (cap : ℕ) (cs : List Bytes) (narrow : cap < 65536) (cut : IsCut cap cs) where
  zeros_mixed : xor_into (replicate cap 0) (mix (replicate cap 0) cs) ≡ mix (replicate cap 0) cs
  zeros_mixed =
      xor_into_zeros cap (mix (replicate cap 0) cs)
        (length-mix cs (replicate cap 0) ∙ length-replicate cap 0)

  -- The one missing piece is rebuilt from the others and the parity.
  pub recover_fragment_lem :
      (ps : Parts) (m : ℕ)
      → Fits cs ps
      → missing 0 ps ≡ m ∷ []
      → (c : Bytes) × (get_elem? cs m ≡ some c)
        × (recover_fragment cap ps m (some (parity_of cap cs)) ≡ some c)
  unfolding recover_fragment recover_with
  recover_fragment_lem ps m fits gap =
      let (c, at, le, mixed) = mix_parts-gap cs ps 0 m (replicate cap 0) fits gap in
      let here : get_elem? cs m ≡ some c = subst (λ t. get_elem? cs t ≡ some c) (omega arith) at in
      let (kept, short) = kept_length cap cs m c cut here in
      (
        c,
        here,
        ground (
          arith,
          length-mix cs (replicate cap 0),
          length-replicate {A = ℕ} cap 0,
          length-Fits cs ps fits,
          zeros_mixed,
          mixed,
          kept,
          last_length-le cap cs cut,
          take-xor_into_zeros cap c short,
          length-xor_into (replicate cap 0) c,
        ),
      )
