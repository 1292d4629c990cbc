-- ===== src/Proto/VideoFrame/Assembler.antt =====
-- `FragmentAssembler` and `recover_fragment` of video_frame.rs: fragments in any order become access
-- units again, with one lost fragment rebuilt from the parity. `cap` is the payload limit.
use couchlink.Base.{
  ℕ, ◌+◌, ◌*◌, List, [], ◌∷◌, ◌++◌, ltb, ◌==◌, if◌then◌else◌, length, take, drop, replicate, set,
  Bool, false, not, Option, none, some, get_or,
}
use couchlink.Proto.Buffer.{Bytes}
use couchlink.Proto.VideoFrame.{VideoAccessUnit, VideoFragment}
use couchlink.Proto.VideoFrame.Send.{xor_into}

abbrev pub Parts : Type 0
Parts = List (Option Bytes)

pub record FragmentAssembler : Type 0 where
  pub seq : Option ℕ
  pub width : ℕ
  pub height : ℕ
  pub keyframe : Bool
  pub frag_count : ℕ
  pub stamp_us : ℕ
  pub input_wm : ℕ
  pub parts : Parts
  pub parity : Option Bytes

-- `FragmentAssembler::default()`
unfoldable pub default : FragmentAssembler
default = record {
  seq = none;
  width = 0;
  height = 0;
  keyframe = false;
  frag_count = 0;
  stamp_us = 0;
  input_wm = 0;
  parts = [];
  parity = none;
}

abbrev pub is_seq : Option ℕ → ℕ → Bool
is_seq none n = false
is_seq (some m) n = m == n

-- A fragment of another access unit starts afresh.
unfoldable pub restart : FragmentAssembler → VideoFragment → FragmentAssembler
restart asm frag = if is_seq asm.seq frag.seq then asm else record {
  seq = some frag.seq;
  width = frag.width;
  height = frag.height;
  keyframe = frag.keyframe;
  frag_count = frag.frag_count;
  stamp_us = frag.stamp_us;
  input_wm = frag.input_wm;
  parts = replicate frag.frag_count none;
  parity = none;
}

-- `none` is the early `return None`.
unfoldable pub store : FragmentAssembler → VideoFragment → Option FragmentAssembler
store asm frag =
    if not (frag.frag_count == asm.frag_count)
    then none
    else if frag.frag_idx == frag.frag_count
    then some (record asm { parity = some frag.payload })
    else if ltb frag.frag_idx (length asm.parts)
    then some (record asm { parts = set asm.parts frag.frag_idx (some frag.payload) })
    else none

-- The indices of the missing parts, counted from `i`.
unfoldable pub missing : ℕ → Parts → List ℕ
missing i [] = []
missing i (none ∷ ps) = i ∷ missing (i + 1) ps
missing i (some p ∷ ps) = missing (i + 1) ps

-- The present parts, one after the other.
unfoldable pub concat_parts : Parts → Bytes
concat_parts [] = []
concat_parts (none ∷ ps) = concat_parts ps
concat_parts (some p ∷ ps) = p ++ concat_parts ps

-- The loop of `recover_fragment`: every part but that at `gone` is mixed in, and `none` is its `?`.
unfoldable pub mix_parts : ℕ → ℕ → Parts → Bytes → Option Bytes
mix_parts i gone [] acc = some acc
mix_parts i gone (none ∷ ps) acc =
    let rest = mix_parts (i + 1) gone ps acc in if i == gone then rest else none
mix_parts i gone (some p ∷ ps) acc =
    mix_parts (i + 1) gone ps (if i == gone then acc else xor_into acc p)

abbrev pub trim : ℕ → Option Bytes → Option Bytes
trim want_len none = none
trim want_len (some acc) = if ltb (length acc) want_len then none else some (take want_len acc)

module _ (cap : ℕ) where
  unfoldable pub recover_with : Parts → ℕ → Bytes → Option Bytes
  recover_with parts gone parity =
      if ltb (length parity) (2 + cap)
      then none
      else (let last_len = get_or parity 0 0 + 256 * get_or parity 1 0 in
          trim (if gone + 1 == length parts then last_len else cap)
            (mix_parts 0 gone parts (xor_into (replicate cap 0) (drop 2 parity))))

  unfoldable pub recover_fragment : Parts → ℕ → Option Bytes → Option Bytes
  recover_fragment parts gone none = none
  recover_fragment parts gone (some parity) = recover_with parts gone parity

  -- The match on the missing indices: the complete parts, or `none` for `return None`.
  unfoldable pub complete : Parts → Option Bytes → List ℕ → Option Parts
  complete parts parity [] = some parts
  complete parts parity (m ∷ []) = elim (recover_fragment parts m parity) [
    | none ↦ none
    | some recovered ↦ some (set parts m (some recovered))
  ]
  complete parts parity (m ∷ n ∷ ms) = none

  -- `parts.drain(..)` and the two resets leave the assembler empty.
  unfoldable pub emit :
      FragmentAssembler → VideoFragment → Option Parts → FragmentAssembler × Option VideoAccessUnit
  emit asm frag none = (asm, none)
  emit asm frag (some parts) = (
    record asm { parts = []; seq = none; parity = none },
    some (record {
      seq = frag.seq;
      width = asm.width;
      height = asm.height;
      keyframe = asm.keyframe;
      annex_b = concat_parts parts;
      stamp_us = asm.stamp_us;
      input_wm = asm.input_wm;
    }),
  )

  unfoldable pub finish_push :
      FragmentAssembler
      → VideoFragment
      → Option FragmentAssembler
      → FragmentAssembler × Option VideoAccessUnit
  finish_push before frag none = (before, none)
  finish_push before frag (some asm) =
      emit asm frag (complete asm.parts asm.parity (missing 0 asm.parts))

  unfoldable pub push :
      FragmentAssembler → VideoFragment → FragmentAssembler × Option VideoAccessUnit
  push asm frag = let fresh = restart asm frag in finish_push fresh frag (store fresh frag)
