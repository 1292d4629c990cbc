-- ===== src/Proto/VideoFrame/Delivery.antt =====
-- From sender to receiver: the fragments of one access unit, pushed in any order, with repeats and
-- losses, into an assembler.
use couchlink.Base.{
  ℕ, ◌≡◌, refl, arith, length, replicate, set, get_elem?, Option, none, some, Bool, true, false,
  if◌then◌else◌, ◌==◌, ◌⊎◌, inl, inr, Bool-cases, get_elem?-lt,
}
use couchlink.Proto.Buffer.{Bytes}
use couchlink.Proto.VideoFrame.{VideoAccessUnit, VideoFragment}
use couchlink.Proto.VideoFrame.Send.{data_fragment, parity_fragment}
use couchlink.Proto.VideoFrame.Assembler.{
  FragmentAssembler, is_seq, restart, store, missing, complete, emit, finish_push, push,
}
use couchlink.Proto.VideoFrame.Parity.{
  mix, Fits, last_length, Fits-replicate, Fits-set, length-Fits,
}
use couchlink.Proto.VideoFrame.Complete.{
  is_some, present, present-set, present-set_self, enough_for, IsParity, complete-enough,
  complete-short,
}
use couchlink.Proto.VideoFrame.Cutting.{pieces, IsSendable, joined-pieces, pieces-IsCut}

module _ (cap : ℕ) (au : VideoAccessUnit) where
  abbrev count : ℕ
  count = length (pieces cap au)

  -- A fragment of the access unit: one of its pieces, or the parity of all of them.
  pub data IsFragment (f : VideoFragment) : Type 0 where
    piece :
        (i : ℕ) (c : Bytes)
        → get_elem? (pieces cap au) i ≡ some c
        → f ≡ data_fragment au count i c
        → IsFragment f
    parity :
        f
          ≡ parity_fragment au count
              (last_length (pieces cap au))
              (mix (replicate cap 0) (pieces cap au))
        → IsFragment f

  -- The assembler is at work on the access unit, and all that it holds is right.
  pub record Holds (asm : FragmentAssembler) : Type 0 where
    pub seq : asm.seq ≡ some au.seq
    pub width : asm.width ≡ au.width
    pub height : asm.height ≡ au.height
    pub keyframe : asm.keyframe ≡ au.keyframe
    pub frag_count : asm.frag_count ≡ count
    pub stamp_us : asm.stamp_us ≡ au.stamp_us
    pub input_wm : asm.input_wm ≡ au.input_wm
    pub fits : Fits (pieces cap au) asm.parts
    pub par : IsParity cap (pieces cap au) asm.parity

  -- It holds nothing of another access unit under the same sequence number.
  abbrev pub Ready : FragmentAssembler → Type 0
  Ready asm = (is_seq asm.seq au.seq ≡ false) ⊎ Holds asm

  -- Fragment `j` has arrived; the parity has the number after the last piece.
  abbrev pub has : ℕ → FragmentAssembler → Bool
  has j asm = if j == asm.frag_count then is_some asm.parity else present j asm.parts

  abbrev pub enough : FragmentAssembler → Bool
  enough asm = enough_for (missing 0 asm.parts) asm.parity

  module _ (ok : IsSendable cap au) where
    abbrev Matches : VideoFragment → Type 0
    Matches f =
        (f.seq ≡ au.seq)
        × (f.width ≡ au.width)
        × (f.height ≡ au.height)
        × (f.keyframe ≡ au.keyframe)
        × (f.frag_count ≡ count)
        × (f.stamp_us ≡ au.stamp_us)
        × (f.input_wm ≡ au.input_wm)

    IsFragment-Matches : (f : VideoFragment) → IsFragment f → Matches f
    unfolding data_fragment parity_fragment
    IsFragment-Matches f (piece i c at e) = ground arith
    IsFragment-Matches f (parity e) = ground arith

    fresh-Fits : (n : ℕ) → n ≡ count → Fits (pieces cap au) (replicate n none)
    fresh-Fits n e = rw e (Fits-replicate (pieces cap au))

    restart-Holds :
        (asm : FragmentAssembler) (f : VideoFragment)
        → Ready asm
        → Matches f
        → Holds (restart asm f)
    unfolding restart
    restart-Holds asm f (inl other) m =
        rw (m.0, other)
          (record {
            seq = cc;
            width = m.1;
            height = m.2;
            keyframe = m.3;
            frag_count = m.4;
            stamp_us = m.5;
            input_wm = m.6;
            fits = fresh-Fits f.frag_count m.4;
            par = tt;
          })
    restart-Holds asm f (inr h) m =
        let same : is_seq asm.seq f.seq ≡ true = rw (h.seq, m.0) (ground arith) in rw same h

    -- A fragment is stored, and what was there stays.
    abbrev Stored : FragmentAssembler → ℕ → FragmentAssembler → Type 0
    Stored asm i asm' =
        Holds asm' × (has i asm' ≡ true) × ((j : ℕ) → has j asm ≡ true → has j asm' ≡ true)

    store-piece :
        (asm : FragmentAssembler) (f : VideoFragment) (i : ℕ) (c : Bytes)
        → Holds asm
        → get_elem? (pieces cap au) i ≡ some c
        → f ≡ data_fragment au count i c
        → (asm' : FragmentAssembler) × (store asm f ≡ some asm') × Stored asm f.frag_idx asm'
    unfolding store data_fragment
    store-piece asm f i c h at e =
        let lt = get_elem?-lt (pieces cap au) i at in
        let len = length-Fits (pieces cap au) asm.parts h.fits in
        let idx : f.frag_idx ≡ i = ground (arith, ok.small) in
        (
          record asm { parts = set asm.parts i (some c) },
          ground arith,
          (
            record {
              seq = h.seq;
              width = h.width;
              height = h.height;
              keyframe = h.keyframe;
              frag_count = h.frag_count;
              stamp_us = h.stamp_us;
              input_wm = h.input_wm;
              fits = Fits-set (pieces cap au) asm.parts i c h.fits at;
              par = h.par;
            },
            ground (arith, present-set_self asm.parts i c),
            λ j old. ground (arith, present-set asm.parts i j c),
          ),
        )

    store-parity :
        (asm : FragmentAssembler) (f : VideoFragment)
        → Holds asm
        → f
          ≡ parity_fragment au count
              (last_length (pieces cap au))
              (mix (replicate cap 0) (pieces cap au))
        → (asm' : FragmentAssembler) × (store asm f ≡ some asm') × Stored asm f.frag_idx asm'
    unfolding store parity_fragment
    store-parity asm f h e = (
      record asm { parity = some f.payload },
      ground arith,
      (
        record {
          seq = h.seq;
          width = h.width;
          height = h.height;
          keyframe = h.keyframe;
          frag_count = h.frag_count;
          stamp_us = h.stamp_us;
          input_wm = h.input_wm;
          fits = h.fits;
          par = ground arith;
        },
        ground arith,
        λ j old. ground arith,
      ),
    )

    store_lem :
        (asm : FragmentAssembler) (f : VideoFragment)
        → Holds asm
        → IsFragment f
        → (asm' : FragmentAssembler) × (store asm f ≡ some asm') × Stored asm f.frag_idx asm'
    store_lem asm f h (piece i c at e) = store-piece asm f i c h at e
    store_lem asm f h (parity e) = store-parity asm f h e

    -- What one push does: it stores the fragment, and gives the access unit if that is enough.
    abbrev pub Pushed : FragmentAssembler → ℕ → FragmentAssembler × Option VideoAccessUnit → Type 0
    Pushed asm i r =
        (asm' : FragmentAssembler) × Stored asm i asm'
        × (((enough asm' ≡ true) × (r.1 ≡ some au) × (r.0.seq ≡ none))
            ⊎ ((enough asm' ≡ false) × (r ≡ (asm', none))))

    emit-Pushed :
        (before asm : FragmentAssembler) (i : ℕ) (f : VideoFragment)
        → f.seq ≡ au.seq
        → Stored before i asm
        → Pushed before i (emit cap asm f (complete cap asm.parts asm.parity (missing 0 asm.parts)))
    unfolding emit
    emit-Pushed before asm i f same st = elim (Bool-cases (enough asm)) [
      | inl en ↦
          let (qs, e, whole) =
            complete-enough cap (pieces cap au) ok.narrow (pieces-IsCut cap au ok) asm.parts
              asm.parity (missing 0 asm.parts) st.0.fits st.0.par refl en in
          (
            asm,
            st,
            inl (
              en,
              rw e (
                  ground (
                    arith,
                    whole,
                    joined-pieces cap au ok,
                    st.0.width,
                    st.0.height,
                    st.0.keyframe,
                    st.0.stamp_us,
                    st.0.input_wm,
                  )),
              rw e refl,
            ),
          )
      | inr en ↦ (
        asm,
        st,
        inr (
          en,
          rw
              (complete-short cap (pieces cap au) ok.narrow (pieces-IsCut cap au ok) asm.parts
                asm.parity (missing 0 asm.parts) en)
              refl,
        ),
      )
    ]

    -- A push of a fragment of the access unit, into an assembler that is ready for it: it is stored,
    -- and the access unit comes out exactly when the parts are complete, or all but one with the
    -- parity at hand.
    pub push_lem :
        (asm : FragmentAssembler) (f : VideoFragment)
        → Ready asm
        → IsFragment f
        → Pushed (restart asm f) f.frag_idx (push cap asm f)
    unfolding push finish_push
    push_lem asm f r fr =
        let m = IsFragment-Matches f fr in
        let (asm', e, st) = store_lem (restart asm f) f (restart-Holds asm f r m) fr in
        rw e (emit-Pushed (restart asm f) asm' f.frag_idx f m.0 st)

    -- Once at work on the access unit, a push starts nothing afresh.
    pub restart-same :
        (asm : FragmentAssembler) (f : VideoFragment)
        → Holds asm
        → IsFragment f
        → restart asm f ≡ asm
    unfolding restart
    restart-same asm f h fr =
        let m = IsFragment-Matches f fr in
        let same : is_seq asm.seq f.seq ≡ true = rw (h.seq, m.0) (ground arith) in rw same
