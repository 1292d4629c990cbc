-- ===== src/Proto/VideoFrame/Send.antt =====
-- `VideoAccessUnit::encode_fragments` and `encode_fragments_with_fec` of video_frame.rs: an access
-- unit is cut into fragments, with an exclusive-or parity fragment behind them on demand. `cap` is
-- the payload limit, `VIDEO_MAX_FRAGMENT_PAYLOAD` in the program.
use couchlink.Base.{
  ℕ, zero, suc, ◌+◌, ◌-◌, ◌/◌, ◌%◌, List, [], ◌∷◌, ◌++◌, ltb, if◌then◌else◌, length, take, drop,
  replicate, Bool, true, false, ◌&&◌, bit_xor, max,
}
use couchlink.Proto.Buffer.{Bytes, Buffer, le_bytes}
use couchlink.Proto.VideoFrame.{VideoAccessUnit, VideoFragment, encode, video_max_fragment_payload}

-- `slice::chunks`; the first argument is fuel, and the length of the slice is enough of it.
unfoldable pub chunks_fuel : ℕ → ℕ → Bytes → List Bytes
chunks_fuel zero n xs = []
chunks_fuel (suc fuel) n [] = []
chunks_fuel (suc fuel) n (x ∷ xs) = take n (x ∷ xs) ∷ chunks_fuel fuel n (drop n (x ∷ xs))

unfoldable pub chunks : ℕ → Bytes → List Bytes
unfolding chunks_fuel
chunks n xs = chunks_fuel (length xs) n xs

-- `for (x, b) in xor.iter_mut().zip(piece) { *x ^= *b }`
unfoldable pub xor_into : Bytes → Bytes → Bytes
xor_into [] piece = []
xor_into (x ∷ xs) [] = x ∷ xs
xor_into (x ∷ xs) (b ∷ bs) = bit_xor x b ∷ xor_into xs bs

-- `payload.len().div_ceil(chunk).max(1) as u16`
unfoldable pub fragment_count : ℕ → Bytes → ℕ
fragment_count cap payload = max ((length payload + max cap 1 - 1) / max cap 1) 1 % 65536

unfoldable pub data_fragment : VideoAccessUnit → ℕ → ℕ → Bytes → VideoFragment
data_fragment au frag_count i piece = record {
  seq = au.seq;
  width = au.width;
  height = au.height;
  keyframe = au.keyframe;
  frag_idx = i % 65536;
  frag_count = frag_count;
  stamp_us = au.stamp_us;
  input_wm = au.input_wm;
  payload = piece;
}

-- The variables of the loop over the chunks; `out` holds the packets, oldest first.
pub record Cut : Type 0 where
  pub xor : Bytes
  pub last_len : ℕ
  pub n_data : ℕ
  pub out : List Bytes

module _ (io : Buffer) (cap : ℕ) (fec : Bool) (au : VideoAccessUnit) (frag_count : ℕ) where
  -- One round: the parity variables, then the packet.
  unfoldable pub cut_piece : ℕ → Bytes → Cut → Cut
  cut_piece i piece c = record {
    xor = if fec then xor_into c.xor piece else c.xor;
    last_len = if fec then length piece % 65536 else c.last_len;
    n_data = if fec then (c.n_data + 1) % 65536 else c.n_data;
    out = c.out ++ encode io (data_fragment au frag_count i piece) [] ∷ [];
  }

  unfoldable pub cut_loop : ℕ → List Bytes → Cut → Cut
  cut_loop i [] c = c
  cut_loop i (piece ∷ pieces) c = cut_loop (i + 1) pieces (cut_piece i piece c)

unfoldable pub empty_fragment : VideoAccessUnit → VideoFragment
unfolding data_fragment
empty_fragment au = data_fragment au 1 0 []

unfoldable pub parity_fragment : VideoAccessUnit → ℕ → ℕ → Bytes → VideoFragment
parity_fragment au frag_count last_len xor = record {
  seq = au.seq;
  width = au.width;
  height = au.height;
  keyframe = au.keyframe;
  frag_idx = frag_count;
  frag_count = frag_count;
  stamp_us = au.stamp_us;
  input_wm = au.input_wm;
  payload = le_bytes 2 last_len ++ xor;
}

module _ (io : Buffer) (cap : ℕ) where
  -- What follows the loop.
  unfoldable pub cut_end : Bool → VideoAccessUnit → ℕ → Cut → List Bytes → List Bytes
  cut_end fec au frag_count c [] = encode io (empty_fragment au) [] ∷ []
  cut_end fec au frag_count c (p ∷ ps) =
      if fec && ltb 1 c.n_data
      then (p ∷ ps) ++ encode io (parity_fragment au frag_count c.last_len c.xor) [] ∷ []
      else p ∷ ps

  unfoldable pub encode_fragments_impl : Bool → VideoAccessUnit → List Bytes
  encode_fragments_impl fec au =
      let frag_count = fragment_count cap au.annex_b in
      let start : Cut = record { xor = replicate cap 0; last_len = 0; n_data = 0; out = [] } in
      let c = cut_loop io cap fec au frag_count 0 (chunks (max cap 1) au.annex_b) start in
      cut_end fec au frag_count c c.out

unfoldable pub encode_fragments : Buffer → VideoAccessUnit → List Bytes
encode_fragments io = encode_fragments_impl io video_max_fragment_payload false

unfoldable pub encode_fragments_with_fec : Buffer → VideoAccessUnit → List Bytes
encode_fragments_with_fec io = encode_fragments_impl io video_max_fragment_payload true
