-- ===== src/Proto/VideoFrame/Loss.antt =====
-- Whole runs of the receiver: what a list of fragments gives, whatever their order.
use couchlink.Base.{
  ℕ, ◌≤◌, ◌≡◌, ◌≢◌, refl, sym, subst, arith, List, [], ◌∷◌, length, Option, none, some, true, false,
  ◌⊎◌, inl, inr, All,
}
use native.Mathlib.Decide.{ℕ_discrete}
use couchlink.Proto.VideoFrame.{VideoAccessUnit, VideoFragment}
use couchlink.Proto.VideoFrame.Assembler.{FragmentAssembler, push, restart}
use couchlink.Proto.VideoFrame.Complete.{missing-lt, missing-present}
use couchlink.Proto.VideoFrame.Cutting.{pieces-pos, pieces, IsSendable}
use couchlink.Proto.VideoFrame.Parity.{length-Fits}
use couchlink.Proto.VideoFrame.Delivery.{
  restart-same, IsFragment, Holds, Ready, has, enough, Pushed, push_lem,
}

abbrev add_unit : Option VideoAccessUnit → List VideoAccessUnit → List VideoAccessUnit
add_unit none us = us
add_unit (some u) us = u ∷ us

-- The access units that come out while the fragments are pushed.
unfoldable pub received : ℕ → FragmentAssembler → List VideoFragment → List VideoAccessUnit
received cap asm [] = []
received cap asm (f ∷ fs) = let (asm', out) = push cap asm f in add_unit out (received cap asm' fs)

-- Fragment `j` is among those that arrive.
abbrev pub Delivered : ℕ → List VideoFragment → Type 0
Delivered j [] = ⊥
Delivered j (f ∷ fs) = (f.frag_idx ≡ j) ⊎ Delivered j fs

module _ (cap : ℕ) (au : VideoAccessUnit) (ok : IsSendable cap au) where
  All-add_unit :
      (o : Option VideoAccessUnit) (us : List VideoAccessUnit)
      → (o ≡ none) ⊎ (o ≡ some au)
      → All (λ u. u ≡ au) us
      → All (λ u. u ≡ au) (add_unit o us)
  All-add_unit none us h rest = rest
  All-add_unit (some u) us (inl e) rest = cc
  All-add_unit (some u) us (inr e) rest = (cc, rest)

  Pushed-Ready :
      (asm : FragmentAssembler) (i : ℕ) (r : FragmentAssembler × Option VideoAccessUnit)
      → Pushed cap au ok asm i r
      → Ready cap au r.0 × ((r.1 ≡ none) ⊎ (r.1 ≡ some au))
  Pushed-Ready asm i r (asm', st, inl (en, out, fresh)) = (inl (rw fresh refl), inr out)
  Pushed-Ready asm i r (asm', st, inr (short, e)) = (rw e (inr st.0), inl (rw e refl))

  -- Whatever fragments of the access unit arrive, in whatever order and however often, all that comes
  -- out is the access unit.
  pub received_only :
      (fs : List VideoFragment) (asm : FragmentAssembler)
      → Ready cap au asm
      → All (IsFragment cap au) fs
      → All (λ u. u ≡ au) (received cap asm fs)
  unfolding received
  received_only [] asm r h = tt
  received_only (f ∷ fs) asm r (hf, h) =
      let (ready, out) =
        Pushed-Ready (restart asm f) f.frag_idx _ (push_lem cap au ok asm f r hf) in
      All-add_unit (push cap asm f).1 _ out (received_only fs (push cap asm f).0 ready h)

  cons-nil : (u : VideoAccessUnit) (us : List VideoAccessUnit) → u ∷ us ≢ []
  cons-nil u us e = cc

  -- Where a run that gives nothing ends: all that came is there, and it is not enough.
  abbrev Waits : FragmentAssembler → List VideoFragment → Type 0
  Waits asm fs =
      (z : FragmentAssembler) × Holds cap au z
      × (enough cap au z ≡ false)
      × ((j : ℕ) → has cap au j asm ≡ true → has cap au j z ≡ true)
      × ((j : ℕ) → Delivered j fs → has cap au j z ≡ true)

  Waits-cons :
      (asm asm' : FragmentAssembler) (f : VideoFragment) (fs : List VideoFragment)
      → has cap au f.frag_idx asm' ≡ true
      → ((j : ℕ) → has cap au j asm ≡ true → has cap au j asm' ≡ true)
      → Waits asm' fs
      → Waits asm (f ∷ fs)
  Waits-cons asm asm' f fs here keeps (z, h, short, kept, came) =
      (z, h, short, λ j old. kept j (keeps j old), arrived)
    where
      arrived : (j : ℕ) → Delivered j (f ∷ fs) → has cap au j z ≡ true
      arrived j (inl e) = kept j (subst (λ t. has cap au t asm' ≡ true) e here)
      arrived j (inr d) = came j d

  received-nil-Waits :
      (fs : List VideoFragment) (asm : FragmentAssembler)
      → Holds cap au asm
      → enough cap au asm ≡ false
      → All (IsFragment cap au) fs
      → received cap asm fs ≡ []
      → Waits asm fs
  unfolding received
  received-nil-Waits [] asm h short all e = (asm, h, short, λ j old. old, λ j d. absurd d)
  received-nil-Waits (f ∷ fs) asm h short (hf, all) e =
      let (asm', st, out) = push_lem cap au ok asm f (inr h) hf in
      let keeps : (j : ℕ) → has cap au j asm ≡ true → has cap au j asm' ≡ true =
        rw (restart-same cap au ok asm f h hf) at st.2 in
      elim out [
        | inl (en, unit, fresh) ↦ absurd (cons-nil _ _ (rw unit at e))
        | inr (short', e') ↦
            Waits-cons asm asm' f fs st.1 keeps
              (received-nil-Waits fs asm' st.0 short' all (rw e' at e))
      ]

  -- The same from any assembler that is ready, once something has come.
  Ready-nil-Waits :
      (f : VideoFragment) (fs : List VideoFragment) (asm : FragmentAssembler)
      → Ready cap au asm
      → All (IsFragment cap au) (f ∷ fs)
      → received cap asm (f ∷ fs) ≡ []
      → Waits (restart asm f) (f ∷ fs)
  unfolding received
  Ready-nil-Waits f fs asm r (hf, all) e =
      let (asm', st, out) = push_lem cap au ok asm f r hf in
      elim out [
        | inl (en, unit, fresh) ↦ absurd (cons-nil _ _ (rw unit at e))
        | inr (short', e') ↦
            Waits-cons (restart asm f) asm' f fs st.1 st.2
              (received-nil-Waits fs asm' st.0 short' all (rw e' at e))
      ]

  -- An assembler that has all but one of the pieces and the parity has enough.
  has-enough :
      (z : FragmentAssembler) (gone : ℕ)
      → Holds cap au z
      → gone ≤ length (pieces cap au)
      → ((j : ℕ) → j ≤ length (pieces cap au) → j ≢ gone → has cap au j z ≡ true)
      → enough cap au z ≡ true
  has-enough z gone h le all =
      let len = length-Fits (pieces cap au) z.parts h.fits in
      elim (missing-present z.parts 0 gone
        (λ j lt ne. ground (arith, all j (omega arith) (λ e. ne (omega arith))))) [
          | inl full ↦ rw full refl
          | inr one ↦
              let lt = missing-lt z.parts 0 gone [] one in
              rw one (
                ground (
                  arith,
                  h.frag_count,
                  all (length (pieces cap au)) (omega arith) (λ e. omega arith),
                ))
        ]

  first_unit :
      (us : List VideoAccessUnit)
      → All (λ u. u ≡ au) us
      → us ≢ []
      → (rest : List VideoAccessUnit) × (us ≡ au ∷ rest)
  first_unit [] all ne = absurd (ne refl)
  first_unit (u ∷ us) (e, all) ne = (us, rw e)

  -- For a payload limit below 65536 and above 0, an access unit of fewer than 65536 pieces, and an
  -- assembler that stands at another access unit or already holds fragments of this one: when only
  -- fragments of the access unit are pushed, in any order and any number of times, and every piece and
  -- the parity but at most one are among them, then the first access unit that comes out is this one,
  -- equal in every field.
  pub received_survives_loss :
      (fs : List VideoFragment) (asm : FragmentAssembler) (gone : ℕ)
      → Ready cap au asm
      → All (IsFragment cap au) fs
      → gone ≤ length (pieces cap au)
      → ((j : ℕ) → j ≤ length (pieces cap au) → j ≢ gone → Delivered j fs)
      → (rest : List VideoAccessUnit) × (received cap asm fs ≡ au ∷ rest)
  received_survives_loss [] asm gone r all le came =
      let some_piece = pieces-pos cap au in
      elim (ℕ_discrete gone 0) [
        | yes e ↦ absurd (came 1 some_piece (omega arith))
        | no ne ↦ absurd (came 0 (omega arith) (λ e. ne (sym e)))
      ]
  received_survives_loss (f ∷ fs) asm gone r all le came =
      first_unit _ (received_only (f ∷ fs) asm r all) λ e.
        let (z, h, short, kept, arrived) = Ready-nil-Waits f fs asm r all e in
        let full = has-enough z gone h le (λ j jle ne. arrived j (came j jle ne)) in
        cc (full, short)
