-- ===== src/Proto/VideoFrame/Sent.antt =====
-- What the sender puts on the wire: each packet decodes to a fragment of the access unit, and all
-- fragments are among them.
use couchlink.Base.{
  ℕ, ◌+◌, ◌<◌, ◌≡◌, refl, sym, ap, ◌∙◌, subst, arith, List, [], ◌∷◌, ◌++◌, length, map, replicate,
  Bool, true, false, ◌&&◌, if◌then◌else◌, ltb, max,
}
use mathlib.Core.List.{append_assoc, append-nil, map-append}
use couchlink.Proto.Buffer.{Bytes, Buffer}
use couchlink.Proto.VideoFrame.{VideoAccessUnit, VideoFragment, encode}
use couchlink.Proto.VideoFrame.Send.{
  chunks, data_fragment, parity_fragment, empty_fragment, Cut, cut_piece, cut_loop, cut_end,
  encode_fragments_impl,
}
use couchlink.Proto.VideoFrame.Cutting.{
  nonempty, pieces, IsSendable, fragment_count-pieces, pieces-IsCut,
}
use couchlink.Proto.VideoFrame.Parity.{mix, last_length, IsCut}

-- Each field of the access unit fits the width that the struct gives it.
pub record IsAccessUnit (au : VideoAccessUnit) : Type 0 where
  pub seq_fits : au.seq < 0x1_0000_0000
  pub width_fits : au.width < 65536
  pub height_fits : au.height < 65536
  pub stamp_us_fits : au.stamp_us < 0x1_0000_0000_0000_0000
  pub input_wm_fits : au.input_wm < 0x1_0000_0000

module _ (cap : ℕ) (au : VideoAccessUnit) where
  unfoldable pub data_fragments : ℕ → List Bytes → List VideoFragment
  data_fragments i [] = []
  data_fragments i (c ∷ cs) =
      data_fragment au (length (pieces cap au)) i c ∷ data_fragments (i + 1) cs

  abbrev pub the_parity : VideoFragment
  the_parity =
      parity_fragment au (length (pieces cap au)) (last_length (pieces cap au))
        (mix (replicate cap 0) (pieces cap au))

  -- The fragments of the access unit in the order in which they are sent.
  unfoldable pub fragments : Bool → List VideoFragment
  fragments fec =
      data_fragments 0 (pieces cap au)
      ++ (if fec && ltb 1 (length (pieces cap au)) then the_parity ∷ [] else [])

module _ (io : Buffer) (cap : ℕ) (au : VideoAccessUnit) where
  abbrev pub packets : List VideoFragment → List Bytes
  packets = map (λ f. encode io f [])

  abbrev loop : Bool → ℕ → List Bytes → Cut → Cut
  loop fec = cut_loop io cap fec au (length (pieces cap au))

  cut_loop-out :
      (fec : Bool) (cs : List Bytes) (i : ℕ) (c : Cut)
      → (loop fec i cs c).out ≡ c.out ++ packets (data_fragments cap au i cs)
  unfolding cut_loop cut_piece data_fragments
  cut_loop-out fec [] i c = sym (append-nil c.out)
  cut_loop-out fec (p ∷ cs) i c =
      cut_loop-out fec cs (i + 1) (cut_piece io cap fec au (length (pieces cap au)) i p c)
      ∙ append_assoc c.out _ _

  cut_loop-xor : (cs : List Bytes) (i : ℕ) (c : Cut) → (loop true i cs c).xor ≡ mix c.xor cs
  unfolding cut_loop cut_piece mix
  cut_loop-xor [] i c = refl
  cut_loop-xor (p ∷ cs) i c = cut_loop-xor cs (i + 1) _

  cut_loop-n_data :
      (cs : List Bytes) (i : ℕ) (c : Cut)
      → c.n_data + length cs < 65536
      → (loop true i cs c).n_data ≡ c.n_data + length cs
  unfolding cut_loop cut_piece
  cut_loop-n_data [] i c h = omega arith
  cut_loop-n_data (p ∷ cs) i c h = omega (
    arith,
    cut_loop-n_data cs (i + 1) (cut_piece io cap true au (length (pieces cap au)) i p c)
        (omega arith),
  )

  cut_loop-last_len :
      (p : Bytes) (cs : List Bytes) (i : ℕ) (c : Cut)
      → cap < 65536
      → IsCut cap (p ∷ cs)
      → (loop true i (p ∷ cs) c).last_len ≡ last_length (p ∷ cs)
  unfolding cut_loop cut_piece
  cut_loop-last_len p [] i c h cut = omega arith
  cut_loop-last_len p (q ∷ cs) i c h cut =
      cut_loop-last_len q cs (i + 1) (cut_piece io cap true au (length (pieces cap au)) i p c) h
        cut.1

  cut_loop-false : (cs : List Bytes) (i : ℕ) (c : Cut) → (loop false i cs c).n_data ≡ c.n_data
  unfolding cut_loop cut_piece
  cut_loop-false [] i c = refl
  cut_loop-false (p ∷ cs) i c = cut_loop-false cs (i + 1) _

  abbrev start : Cut
  start = record { xor = replicate cap 0; last_len = 0; n_data = 0; out = [] }

  abbrev parity_packet : Bool → ℕ → ℕ → ℕ → Bytes → List Bytes
  parity_packet fec fc n last xor =
      if fec && ltb 1 n then encode io (parity_fragment au fc last xor) [] ∷ [] else []

  -- What follows the loop, once there is a packet.
  cut_end-cons :
      (fec : Bool) (fc : ℕ) (c : Cut) (q : Bytes) (qs : List Bytes)
      → c.out ≡ q ∷ qs
      → cut_end io cap fec au fc c c.out
        ≡ (q ∷ qs) ++ parity_packet fec fc c.n_data c.last_len c.xor
  unfolding cut_end
  cut_end-cons fec fc c q qs e = rw e (ground (arith, append-nil (q ∷ qs)))

  packets-fragments :
      (fec : Bool)
      → packets (fragments cap au fec)
        ≡ packets (data_fragments cap au 0 (pieces cap au))
          ++ parity_packet fec
              (length (pieces cap au))
              (length (pieces cap au))
              (last_length (pieces cap au))
              (mix (replicate cap 0) (pieces cap au))
  unfolding fragments
  packets-fragments fec =
      map-append (λ f. encode io f []) (data_fragments cap au 0 (pieces cap au)) _
      ∙ ap (λ t. packets (data_fragments cap au 0 (pieces cap au)) ++ t) (ground arith)

  after_loop :
      (fec : Bool) (p : Bytes) (cs : List Bytes)
      → IsSendable cap au
      → pieces cap au ≡ p ∷ cs
      → parity_packet fec
          (length (pieces cap au))
          (loop fec 0 (p ∷ cs) start).n_data
          (loop fec 0 (p ∷ cs) start).last_len
          (loop fec 0 (p ∷ cs) start).xor
        ≡ parity_packet fec
            (length (pieces cap au))
            (length (p ∷ cs))
            (last_length (p ∷ cs))
            (mix (replicate cap 0) (p ∷ cs))
  after_loop false p cs s e = refl
  after_loop true p cs s e =
      rw
        (
          cut_loop-n_data (p ∷ cs) 0 start (omega (arith, s.small, ap length e)),
          cut_loop-xor (p ∷ cs) 0 start,
          cut_loop-last_len p cs 0 start s.narrow (subst (IsCut cap) e (pieces-IsCut cap au s)),
        )
        (ground arith)

  cut_end-pieces :
      (fec : Bool) (p : Bytes) (cs : List Bytes)
      → IsSendable cap au
      → pieces cap au ≡ p ∷ cs
      → (let c = loop fec 0 (p ∷ cs) start in
          cut_end io cap fec au (length (pieces cap au)) c c.out)
        ≡ packets (fragments cap au fec)
  unfolding data_fragments
  cut_end-pieces fec p cs s e =
      cut_end-cons fec (length (pieces cap au)) (loop fec 0 (p ∷ cs) start) _ _
        (cut_loop-out fec (p ∷ cs) 0 start)
      ∙ ap (λ t. packets (data_fragments cap au 0 (p ∷ cs)) ++ t) (after_loop fec p cs s e)
      ∙ sym (
          packets-fragments fec
          ∙ ap
              (λ ps.
                packets (data_fragments cap au 0 ps)
                ++ parity_packet fec (length (pieces cap au)) (length ps) (last_length ps)
                    (mix (replicate cap 0) ps))
              e)

  -- The empty access unit is one empty fragment.
  sent_empty :
      (fec : Bool)
      → pieces cap au ≡ [] ∷ []
      → encode io (empty_fragment au) [] ∷ [] ≡ packets (fragments cap au fec)
  unfolding data_fragments fragments empty_fragment
  sent_empty fec e = rw e (ground arith)

  sent_from :
      (fec : Bool) (cs : List Bytes)
      → IsSendable cap au
      → pieces cap au ≡ nonempty cs
      → (let c = loop fec 0 cs start in cut_end io cap fec au (length (pieces cap au)) c c.out)
        ≡ packets (fragments cap au fec)
  sent_from fec [] s e = unfold cut_end cut_loop in sent_empty fec e
  sent_from fec (p ∷ cs) s e = cut_end-pieces fec p cs s e

  -- The sender's packets are the encodings of the fragments, in order.
  pub sent-fragments :
      (fec : Bool)
      → IsSendable cap au
      → encode_fragments_impl io cap fec au ≡ packets (fragments cap au fec)
  unfolding encode_fragments_impl pieces
  sent-fragments fec s =
      rw (fragment_count-pieces cap au s) (sent_from fec (chunks (max cap 1) au.annex_b) s refl)
