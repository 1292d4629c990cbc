-- ===== src/Proto/Buffer.antt =====
-- What crates/proto uses of the `bytes` crate: `BufMut` for writing and `Buf` for reading. The crate
-- is not part of the repository, so its operations are a parameter, and each law states what the
-- crate documents. A byte string is a list of numbers below 256; a signed word is its bit pattern.
use couchlink.Base.{
  arith, ◌≤◌, ℕ, zero, suc, ◌+◌, ◌*◌, ◌/◌, ◌%◌, ◌<◌, ◌≡◌, refl, List, [], ◌∷◌, ◌++◌, Option, none,
  some, take, drop, length, leb, if◌then◌else◌,
}

abbrev pub Bytes : Type 0
Bytes = List ℕ

abbrev pub IsByte : ℕ → Type 0
IsByte b = b < 256

-- `n` in `k` bytes, the lowest first.
abbrev pub le_bytes : ℕ → ℕ → Bytes
le_bytes zero n = []
le_bytes (suc k) n = (n % 256) ∷ le_bytes k (n / 256)

-- The number in the first `k` bytes, the lowest first, and the rest; `none` when there are fewer.
abbrev pub read_le : ℕ → Bytes → Option (ℕ × Bytes)
read_le zero bs = some (0, bs)
read_le (suc k) [] = none
read_le (suc k) (x ∷ xs) = elim (read_le k xs) [
  | none ↦ none
  | some (n, rest) ↦ some (x + 256 * n, rest)
]

-- `none` stands for the panic that the crate documents for a read past the end.
pub record Buffer : Type 0 where
  pub put_u8 : ℕ → Bytes → Bytes
  pub put_u16_le : ℕ → Bytes → Bytes
  pub put_i16_le : ℕ → Bytes → Bytes
  pub put_u32_le : ℕ → Bytes → Bytes
  pub put_u64_le : ℕ → Bytes → Bytes
  pub put_slice : Bytes → Bytes → Bytes
  pub get_u8 : Bytes → Option (ℕ × Bytes)
  pub get_u16_le : Bytes → Option (ℕ × Bytes)
  pub get_i16_le : Bytes → Option (ℕ × Bytes)
  pub get_u32_le : Bytes → Option (ℕ × Bytes)
  pub get_u64_le : Bytes → Option (ℕ × Bytes)
  pub copy_to_slice : ℕ → Bytes → Option (Bytes × Bytes)
  pub put_u8_lem : (n : ℕ) (out : Bytes) → put_u8 n out ≡ out ++ le_bytes 1 n
  pub put_u16_le_lem : (n : ℕ) (out : Bytes) → put_u16_le n out ≡ out ++ le_bytes 2 n
  pub put_i16_le_lem : (n : ℕ) (out : Bytes) → put_i16_le n out ≡ out ++ le_bytes 2 n
  pub put_u32_le_lem : (n : ℕ) (out : Bytes) → put_u32_le n out ≡ out ++ le_bytes 4 n
  pub put_u64_le_lem : (n : ℕ) (out : Bytes) → put_u64_le n out ≡ out ++ le_bytes 8 n
  pub put_slice_lem : (s out : Bytes) → put_slice s out ≡ out ++ s
  pub get_u8_lem : (bs : Bytes) → get_u8 bs ≡ read_le 1 bs
  pub get_u16_le_lem : (bs : Bytes) → get_u16_le bs ≡ read_le 2 bs
  pub get_i16_le_lem : (bs : Bytes) → get_i16_le bs ≡ read_le 2 bs
  pub get_u32_le_lem : (bs : Bytes) → get_u32_le bs ≡ read_le 4 bs
  pub get_u64_le_lem : (bs : Bytes) → get_u64_le bs ≡ read_le 8 bs
  pub copy_to_slice_lem :
      (n : ℕ) (bs : Bytes)
      → copy_to_slice n bs ≡ (if leb n (length bs) then some (take n bs, drop n bs) else none)

-- The laws as lemmas, and as sets for `simp`: each call becomes its bytes.
module _ (io : Buffer) where
  pub put_u8_lem : (n : ℕ) (out : Bytes) → io.put_u8 n out ≡ out ++ le_bytes 1 n
  put_u8_lem = io.put_u8_lem

  pub put_u16_le_lem : (n : ℕ) (out : Bytes) → io.put_u16_le n out ≡ out ++ le_bytes 2 n
  put_u16_le_lem = io.put_u16_le_lem

  pub put_i16_le_lem : (n : ℕ) (out : Bytes) → io.put_i16_le n out ≡ out ++ le_bytes 2 n
  put_i16_le_lem = io.put_i16_le_lem

  pub put_u32_le_lem : (n : ℕ) (out : Bytes) → io.put_u32_le n out ≡ out ++ le_bytes 4 n
  put_u32_le_lem = io.put_u32_le_lem

  pub put_u64_le_lem : (n : ℕ) (out : Bytes) → io.put_u64_le n out ≡ out ++ le_bytes 8 n
  put_u64_le_lem = io.put_u64_le_lem

  pub put_slice_lem : (s out : Bytes) → io.put_slice s out ≡ out ++ s
  put_slice_lem = io.put_slice_lem

  pub get_u8_lem : (bs : Bytes) → io.get_u8 bs ≡ read_le 1 bs
  get_u8_lem = io.get_u8_lem

  pub get_u16_le_lem : (bs : Bytes) → io.get_u16_le bs ≡ read_le 2 bs
  get_u16_le_lem = io.get_u16_le_lem

  pub get_i16_le_lem : (bs : Bytes) → io.get_i16_le bs ≡ read_le 2 bs
  get_i16_le_lem = io.get_i16_le_lem

  pub get_u32_le_lem : (bs : Bytes) → io.get_u32_le bs ≡ read_le 4 bs
  get_u32_le_lem = io.get_u32_le_lem

  pub get_u64_le_lem : (bs : Bytes) → io.get_u64_le bs ≡ read_le 8 bs
  get_u64_le_lem = io.get_u64_le_lem

  pub copy_to_slice_lem :
      (n : ℕ) (bs : Bytes)
      → io.copy_to_slice n bs ≡ (if leb n (length bs) then some (take n bs, drop n bs) else none)
  copy_to_slice_lem = io.copy_to_slice_lem

pub ruleset writes =
    (put_u8_lem, put_u16_le_lem, put_i16_le_lem, put_u32_le_lem, put_u64_le_lem, put_slice_lem)

pub ruleset reads =
    (get_u8_lem, get_u16_le_lem, get_i16_le_lem, get_u32_le_lem, get_u64_le_lem, copy_to_slice_lem)

-- What a decoder does: a value, the error that it returns, or a panic of the buffer.
pub data Decoded (E A : Type 0) : Type 0 where
  ok : A → Decoded E A
  err : E → Decoded E A
  panic : Decoded E A

-- A decoder goes on with what a read gives, and panics with it.
infixl 5 ◌>>=◌
abbrev pub ◌>>=◌ : {E A B : Type 0} → Option A → (A → Decoded E B) → Decoded E B
none >>= f = panic
some a >>= f = f a

-- One write after another.
infixl 20 ◌⨾◌
abbrev pub ◌⨾◌ : (Bytes → Bytes) → (Bytes → Bytes) → Bytes → Bytes
(f ⨾ g) out = g (f out)

-- Byte lists that the laws describe: a value of the interface, for concrete runs.
abbrev pub plain_buffer : Buffer
plain_buffer = record {
  put_u8 = λ n out. out ++ le_bytes 1 n;
  put_u16_le = λ n out. out ++ le_bytes 2 n;
  put_i16_le = λ n out. out ++ le_bytes 2 n;
  put_u32_le = λ n out. out ++ le_bytes 4 n;
  put_u64_le = λ n out. out ++ le_bytes 8 n;
  put_slice = λ s out. out ++ s;
  get_u8 = read_le 1;
  get_u16_le = read_le 2;
  get_i16_le = read_le 2;
  get_u32_le = read_le 4;
  get_u64_le = read_le 8;
  copy_to_slice = λ n bs. if leb n (length bs) then some (take n bs, drop n bs) else none;
  put_u8_lem = λ n out. refl;
  put_u16_le_lem = λ n out. refl;
  put_i16_le_lem = λ n out. refl;
  put_u32_le_lem = λ n out. refl;
  put_u64_le_lem = λ n out. refl;
  put_slice_lem = λ s out. refl;
  get_u8_lem = λ bs. refl;
  get_u16_le_lem = λ bs. refl;
  get_i16_le_lem = λ bs. refl;
  get_u32_le_lem = λ bs. refl;
  get_u64_le_lem = λ bs. refl;
  copy_to_slice_lem = λ n bs. refl;
}

-- A read of `k` bytes succeeds where there are as many, and takes just these.
pub read_le_enough :
    (k : ℕ) (bs : Bytes)
    → k ≤ length bs
    → (n : ℕ) × (rest : Bytes) × (read_le k bs ≡ some (n, rest)) × (length rest + k ≡ length bs)
read_le_enough zero bs h = (0, bs, refl, omega arith)
read_le_enough (suc k) [] h = absurd (omega arith)
read_le_enough (suc k) (x ∷ xs) h =
    let (n, rest, e, l) = read_le_enough k xs (omega arith) in
    (x + 256 * n, rest, rw e, omega arith)
