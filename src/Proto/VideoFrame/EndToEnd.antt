-- ===== src/Proto/VideoFrame/EndToEnd.antt =====
-- Sender, wire and receiver together: the packets of one access unit, of which at most one is lost.
use couchlink.Base.{
  ℕ, zero, suc, ◌+◌, ◌<◌, ◌≤◌, ◌≡◌, ◌≢◌, refl, ap, ◌∙◌, subst, arith, List, [], ◌∷◌, ◌++◌, length,
  map, get_elem?, some, Bool, true, false, ◌&&◌, if◌then◌else◌, ltb, All, All-append, inl, inr,
  length-append, get_elem?-lt,
}
use native.Mathlib.Decide.{ℕ_discrete}
use couchlink.Proto.Buffer.{Bytes, Buffer, ok}
use couchlink.Proto.VideoFrame.{VideoAccessUnit, VideoFragment, IsVideoFragment, decode}
use couchlink.Proto.VideoFrame.Wire.{decode-encode}
use couchlink.Proto.VideoFrame.Send.{data_fragment, parity_fragment, encode_fragments_impl}
use couchlink.Proto.VideoFrame.Assembler.{FragmentAssembler}
use couchlink.Proto.VideoFrame.Cutting.{pieces, pieces-pos, IsSendable}
use couchlink.Proto.VideoFrame.Delivery.{IsFragment, piece, parity, Ready}
use couchlink.Proto.VideoFrame.Loss.{Delivered, received, received_survives_loss}
use couchlink.Proto.VideoFrame.Sent.{
  the_parity, IsAccessUnit, data_fragments, fragments, packets, sent-fragments,
}

-- The list without its element at place `k`.
abbrev pub without {ℓ} : {A : Type ℓ} → ℕ → List A → List A
without k [] = []
without zero (x ∷ xs) = xs
without (suc k) (x ∷ xs) = x ∷ without k xs

All-without {ℓ κ} :
    {A : Type ℓ} (P : A → Type κ) (k : ℕ) (xs : List A) → All P xs → All P (without k xs)
All-without P k [] h = h
All-without P zero (x ∷ xs) h = h.1
All-without P (suc k) (x ∷ xs) h = (h.0, All-without P k xs h.1)

-- The fragments are numbered from `i` on.
abbrev Numbered : ℕ → List VideoFragment → Type 0
Numbered i [] = Unit {0}
Numbered i (f ∷ fs) = (f.frag_idx ≡ i) × Numbered (i + 1) fs

Numbered-append :
    (fs gs : List VideoFragment) (i : ℕ)
    → Numbered i fs
    → Numbered (i + length fs) gs
    → Numbered i (fs ++ gs)
Numbered-append [] gs i h k = subst (λ t. Numbered t gs) (omega arith) k
Numbered-append (f ∷ fs) gs i h k =
    (h.0, Numbered-append fs gs (i + 1) h.1 (subst (λ t. Numbered t gs) (omega arith) k))

Numbered-Delivered :
    (fs : List VideoFragment) (i j : ℕ) → Numbered i fs → i ≤ j → j < i + length fs → Delivered j fs
Numbered-Delivered [] i j h le lt = absurd (omega arith)
Numbered-Delivered (f ∷ fs) i j h le lt = elim (ℕ_discrete i j) [
  | yes e ↦ inl (h.0 ∙ e)
  | no ne ↦ inr (Numbered-Delivered fs (i + 1) j h.1 (omega arith) (omega arith))
]

-- All but the one that is left out are there.
without-Delivered :
    (fs : List VideoFragment) (i j k : ℕ)
    → Numbered i fs
    → i ≤ j
    → j < i + length fs
    → j ≢ i + k
    → Delivered j (without k fs)
without-Delivered [] i j k h le lt ne = absurd (omega arith)
without-Delivered (f ∷ fs) i j zero h le lt ne =
    Numbered-Delivered fs (i + 1) j h.1 (omega arith) (omega arith)
without-Delivered (f ∷ fs) i j (suc k) h le lt ne = elim (ℕ_discrete i j) [
  | yes e ↦ inl (h.0 ∙ e)
  | no other ↦
      inr (without-Delivered fs (i + 1) j k h.1 (omega arith) (omega arith) (λ e. ne (omega arith)))
]

module _ (cap : ℕ) (au : VideoAccessUnit) (s : IsSendable cap au) where
  data_fragments-IsFragment :
      (cs : List Bytes) (i : ℕ)
      → ((j : ℕ) (c : Bytes) → get_elem? cs j ≡ some c → get_elem? (pieces cap au) (i + j) ≡ some c)
      → All (IsFragment cap au) (data_fragments cap au i cs)
  unfolding data_fragments
  data_fragments-IsFragment [] i h = tt
  data_fragments-IsFragment (c ∷ cs) i h = (
    piece i c (subst (λ t. get_elem? (pieces cap au) t ≡ some c) (omega arith) (h 0 c refl)) refl,
    data_fragments-IsFragment cs (i + 1)
        (λ j d e. subst (λ t. get_elem? (pieces cap au) t ≡ some d) (omega arith) (h (suc j) d e)),
  )

  -- Every fragment that is sent is one of the access unit.
  pub fragments-IsFragment : (fec : Bool) → All (IsFragment cap au) (fragments cap au fec)
  unfolding fragments
  fragments-IsFragment fec =
      All-append (IsFragment cap au) (data_fragments cap au 0 (pieces cap au)) _
        (data_fragments-IsFragment (pieces cap au) 0
          (λ j c e. subst (λ t. get_elem? (pieces cap au) t ≡ some c) (omega arith) e))
        (last (fec && ltb 1 (length (pieces cap au))))
    where
      last : (b : Bool) → All (IsFragment cap au) (if b then the_parity cap au ∷ [] else [])
      last true = (parity refl, tt)
      last false = tt

  length-data_fragments :
      (cs : List Bytes) (i : ℕ) → length (data_fragments cap au i cs) ≡ length cs
  unfolding data_fragments
  length-data_fragments [] i = refl
  length-data_fragments (c ∷ cs) i = ap suc (length-data_fragments cs (i + 1))

  data_fragments-Numbered :
      (cs : List Bytes) (i : ℕ) → i + length cs < 65536 → Numbered i (data_fragments cap au i cs)
  unfolding data_fragments data_fragment
  data_fragments-Numbered [] i h = tt
  data_fragments-Numbered (c ∷ cs) i h =
      (omega arith, data_fragments-Numbered cs (i + 1) (omega arith))

  fragments-Numbered : (fec : Bool) → Numbered 0 (fragments cap au fec)
  unfolding fragments parity_fragment
  fragments-Numbered fec =
      Numbered-append (data_fragments cap au 0 (pieces cap au)) _ 0
        (data_fragments-Numbered (pieces cap au) 0 (omega (arith, s.small)))
        (ground (arith, length-data_fragments (pieces cap au) 0))

  length-fragments_fec :
      1 < length (pieces cap au) → length (fragments cap au true) ≡ length (pieces cap au) + 1
  unfolding fragments
  length-fragments_fec many =
      length-append (data_fragments cap au 0 (pieces cap au)) _
      ∙ ground (arith, length-data_fragments (pieces cap au) 0)

  length-fragments_plain : length (fragments cap au false) ≡ length (pieces cap au)
  unfolding fragments
  length-fragments_plain =
      length-append (data_fragments cap au 0 (pieces cap au)) []
      ∙ ground (arith, length-data_fragments (pieces cap au) 0)

  -- For a payload limit below 65536 and above 0, an access unit of more than one and fewer than 65536
  -- pieces, and an assembler that stands at another access unit or holds fragments of this one: when all
  -- fragments that are sent with parity but the one at any place `k` are pushed in the order of sending,
  -- the first access unit that comes out is the one that was sent.
  pub received-without :
      (asm : FragmentAssembler) (k : ℕ)
      → Ready cap au asm
      → 1 < length (pieces cap au)
      → k ≤ length (pieces cap au)
      → (rest : List VideoAccessUnit) × (received cap asm (without k (fragments cap au true))
          ≡ au ∷ rest)
  received-without asm k r many le =
      received_survives_loss cap au s (without k (fragments cap au true)) asm k r
        (All-without (IsFragment cap au) k _ (fragments-IsFragment true)) le
        (λ j jle ne.
          without-Delivered (fragments cap au true) 0 j k (fragments-Numbered true) (omega arith)
            (omega (arith, length-fragments_fec many)) (λ e. ne (omega arith)))

  -- Under the same conditions on the limit, the size and the assembler, an access unit of any number of
  -- pieces that is sent without parity comes out first when every fragment is pushed.
  pub received-fragments :
      (asm : FragmentAssembler)
      → Ready cap au asm
      → (rest : List VideoAccessUnit) × (received cap asm (fragments cap au false) ≡ au ∷ rest)
  received-fragments asm r =
      received_survives_loss cap au s (fragments cap au false) asm (length (pieces cap au)) r
        (fragments-IsFragment false) (omega arith)
        (λ j jle ne.
          Numbered-Delivered (fragments cap au false) 0 j (fragments-Numbered false) (omega arith)
            (omega (arith, length-fragments_plain)))

  -- Each fragment may be encoded and decoded.
  abbrev IsSound : VideoFragment → Type 0
  IsSound f = IsVideoFragment f × (0 < f.frag_count) × (f.frag_idx ≤ f.frag_count)

  IsFragment-IsSound : IsAccessUnit au → (f : VideoFragment) → IsFragment cap au f → IsSound f
  unfolding data_fragment parity_fragment
  IsFragment-IsSound w f (piece i c at e) =
      ground (arith, s.small, pieces-pos cap au, get_elem?-lt (pieces cap au) i at)
  IsFragment-IsSound w f (parity e) = ground (arith, s.small, pieces-pos cap au)

  decode-packets :
      (io : Buffer) (fs : List VideoFragment)
      → IsAccessUnit au
      → All (IsFragment cap au) fs
      → map (decode io) (packets io cap au fs) ≡ map ok fs
  decode-packets io [] w h = refl
  decode-packets io (f ∷ fs) w (hf, h) =
      let (fits, pos, le) = IsFragment-IsSound w f hf in
      rw (decode-encode io f fits pos le, decode-packets io fs w h) refl

  -- For a payload limit below 65536 and above 0 and an access unit of fewer than 65536 pieces whose
  -- fields fit their widths, every packet that is sent, with parity or without, decodes, and the decoded
  -- fragments are those of the access unit, in order.
  pub decode-sent :
      (io : Buffer) (fec : Bool)
      → IsAccessUnit au
      → map (decode io) (encode_fragments_impl io cap fec au) ≡ map ok (fragments cap au fec)
  decode-sent io fec w =
      rw (sent-fragments io cap au fec s)
        (decode-packets io (fragments cap au fec) w (fragments-IsFragment fec))
