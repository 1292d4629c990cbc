-- ===== src/Proto/Stun/Answers.antt =====
-- What a binding response is read as: the loop ends, only an answer to the request is taken, and the
-- masked address is unmasked.
use couchlink.Base.{
  take-all, take-append_self, length-append, drop-append_self, le→ltb, length-take, bytes_eq→eq, ℕ,
  zero, suc, ◌+◌, ◌*◌, ◌/◌, ◌%◌, ◌≤◌, ◌<◌, ◌≡◌, refl, ap, ◌∙◌, arith, [], ◌∷◌, ◌++◌, Option, none,
  some, Bool, true, false, ltb, ◌==◌, not, bytes_eq, bytes_eq_refl, if◌then◌else◌, length, take,
  drop, bit_xor, inl, inr, Bool-cases,
}
use couchlink.Base.Bits.{bit_xor_assoc, bit_xor_self, bit_xor-zero}
use couchlink.Proto.Buffer.{Bytes}
use couchlink.Proto.Stun.{
  attr_mapped_address, attr_xor_mapped_address, SocketAddr, Loop, done, attributes, decode_address,
  parse_binding_response, binding_success, cookie_bytes, be_u16, xor_bytes, u16_at, or_plain,
  padding,
}

length-drop_pos : (n : ℕ) (xs : Bytes) → 1 ≤ n → 1 ≤ length xs → length (drop n xs) < length xs
length-drop_pos zero xs h k = absurd (omega arith)
length-drop_pos (suc n) [] h k = absurd (omega arith)
length-drop_pos (suc n) (x ∷ xs) h k = omega (arith, length-drop xs n)
  where
    length-drop : (xs : Bytes) (n : ℕ) → length (drop n xs) ≤ length xs
    length-drop xs zero = omega arith
    length-drop [] (suc n) = omega arith
    length-drop (x ∷ xs) (suc n) = omega (arith, length-drop xs n)

abbrev pub IsDone : Loop → Type 0
IsDone l = (a : Option SocketAddr) × (l ≡ done a)

if-IsDone : (b : Bool) (x y : Loop) → IsDone x → IsDone y → IsDone (if b then x else y)
if-IsDone true x y h k = h
if-IsDone false x y h k = k

or_go_on-IsDone :
    (o : Option SocketAddr) (l : Loop)
    → IsDone l
    → IsDone (elim o [ some a ↦ done (some a) | none ↦ l ])
or_go_on-IsDone none l h = h
or_go_on-IsDone (some a) l h = (some a, refl)

attributes-IsDone :
    (n : ℕ) (tx rest : Bytes) (plain : Option SocketAddr)
    → length rest ≤ n
    → IsDone (attributes n tx rest plain)
unfolding attributes
attributes-IsDone zero tx rest plain enough = (plain, ground arith)
attributes-IsDone (suc n) tx rest plain enough = elim (Bool-cases (ltb (length rest) 4)) [
  | inl y ↦ (plain, rw y refl)
  | inr m ↦
      let attr_len = u16_at rest 2 in
      let next = drop (4 + (attr_len + padding attr_len)) rest in
      let shorter : length next < length rest =
        length-drop_pos _ rest (omega arith) (ground arith) in
      let go_on = attributes-IsDone n tx next plain (omega arith) in
      let go_on_plain =
        attributes-IsDone n tx next
          (or_plain plain (decode_address (take attr_len (drop 4 rest)) tx false)) (omega arith) in
      if-IsDone (ltb (length rest) 4) _ _ (plain, refl)
        (if-IsDone (ltb (length rest) (4 + attr_len)) _ _ (none, refl)
          (if-IsDone (u16_at rest 0 == attr_xor_mapped_address) _ _
            (or_go_on-IsDone (decode_address (take attr_len (drop 4 rest)) tx true) _ go_on)
            (if-IsDone (u16_at rest 0 == attr_mapped_address) _ _ go_on_plain go_on)))
]

-- Reading a response always ends: the rounds that the loop is given are enough for every buffer.
pub parse_binding_response-IsDone : (tx buf : Bytes) → IsDone (parse_binding_response tx buf)
unfolding parse_binding_response
parse_binding_response-IsDone tx buf =
    let attrs_len = u16_at buf 2 in
    let all =
      attributes-IsDone attrs_len tx (take attrs_len (drop 20 buf)) none
        (omega (arith, length-take attrs_len (drop 20 buf))) in
    if-IsDone (ltb (length buf) 20) _ _ (none, refl)
      (if-IsDone (not (u16_at buf 0 == binding_success)) _ _ (none, refl)
        (if-IsDone (not (bytes_eq (take 4 (drop 4 buf)) cookie_bytes)) _ _ (none, refl)
          (if-IsDone (not (bytes_eq (take 12 (drop 8 buf)) tx)) _ _ (none, refl)
            (if-IsDone (ltb (length buf) (20 + attrs_len)) _ _ (none, refl) all))))

ltb-false : (a b : ℕ) → ltb a b ≡ false → b ≤ a
ltb-false a b h = ground arith

same_number : (a b : ℕ) → not (a == b) ≡ false → a ≡ b
same_number a b h = ground arith

same_bytes : (xs ys : Bytes) → not (bytes_eq xs ys) ≡ false → xs ≡ ys
same_bytes xs ys h = bytes_eq→eq xs ys (not-false (bytes_eq xs ys) h)
  where
    not-false : (b : Bool) → not b ≡ false → b ≡ true
    not-false true h = refl
    not-false false h = cc

-- A test that was not failed.
passed :
    (b : Bool) (l : Loop) (a : SocketAddr)
    → (if b then done none else l) ≡ done (some a)
    → (b ≡ false) × (l ≡ done (some a))
passed true l a e = cc
passed false l a e = (refl, e)

-- An address is taken only from a buffer that is a success response with the magic cookie and the
-- transaction id of the request, and holds as many attribute bytes as its header says.
pub parse_binding_response-echo :
    (tx buf : Bytes) (a : SocketAddr)
    → parse_binding_response tx buf ≡ done (some a)
    → (20 + u16_at buf 2 ≤ length buf)
      × (u16_at buf 0 ≡ binding_success)
      × (take 4 (drop 4 buf) ≡ cookie_bytes)
      × (take 12 (drop 8 buf) ≡ tx)
unfolding parse_binding_response
parse_binding_response-echo tx buf a e =
    let (p, e1) = passed (ltb (length buf) 20) _ a e in
    let (q, e2) = passed (not (u16_at buf 0 == binding_success)) _ a e1 in
    let (r, e3) = passed (not (bytes_eq (take 4 (drop 4 buf)) cookie_bytes)) _ a e2 in
    let (s, e4) = passed (not (bytes_eq (take 12 (drop 8 buf)) tx)) _ a e3 in
    let (t, e5) = passed (ltb (length buf) (20 + u16_at buf 2)) _ a e4 in
    (
      ltb-false (length buf) (20 + u16_at buf 2) t,
      same_number (u16_at buf 0) binding_success q,
      same_bytes (take 4 (drop 4 buf)) cookie_bytes r,
      same_bytes (take 12 (drop 8 buf)) tx s,
    )

xor_twice : (a k : ℕ) → bit_xor (bit_xor a k) k ≡ a
xor_twice a k = bit_xor_assoc a k k ∙ ap (bit_xor a) (bit_xor_self k) ∙ bit_xor-zero a

pub xor_bytes-xor_bytes : (os ks : Bytes) → xor_bytes (xor_bytes os ks) ks ≡ os
xor_bytes-xor_bytes [] ks = refl
xor_bytes-xor_bytes (o ∷ os) [] = refl
xor_bytes-xor_bytes (o ∷ os) (k ∷ ks) = cc (xor_twice o k, xor_bytes-xor_bytes os ks)

-- A success response to `tx` whose attributes are `attrs`.
abbrev pub response : Bytes → Bytes → Bytes
response tx attrs = be_u16 binding_success ++ be_u16 (length attrs) ++ cookie_bytes ++ tx ++ attrs

-- The masked attribute for an address of version 4, and the plain attribute for some other address.
abbrev pub xor_attribute : Bytes → ℕ → Bytes
xor_attribute ip port =
    be_u16 0x0020 ++ be_u16 8 ++ 0 ∷ 1 ∷ be_u16 (bit_xor port 0x2112) ++ xor_bytes ip cookie_bytes

abbrev pub plain_attribute : Bytes → ℕ → Bytes
plain_attribute ip port = be_u16 0x0001 ++ be_u16 8 ++ 0 ∷ 1 ∷ be_u16 port ++ ip

masked_port :
    (port : ℕ)
    → port < 65536
    → bit_xor (bit_xor port 0x2112 / 256 * 256 + bit_xor port 0x2112 % 256) 0x2112 ≡ port
masked_port port small =
    let whole : bit_xor port 0x2112 / 256 * 256 + bit_xor port 0x2112 % 256 ≡ bit_xor port 0x2112 =
      omega arith in
    rw whole (xor_twice port 0x2112)

decode_address-masked :
    (tx : Bytes) (o0 o1 o2 o3 port : ℕ)
    → port < 65536
    → decode_address
        (0 ∷ 1 ∷ be_u16 (bit_xor port 0x2112) ++ xor_bytes (o0 ∷ o1 ∷ o2 ∷ o3 ∷ []) cookie_bytes)
        tx
        true
      ≡ some (record { ip = o0 ∷ o1 ∷ o2 ∷ o3 ∷ []; port = port })
unfolding decode_address
decode_address-masked tx o0 o1 o2 o3 port small = cc (
  masked_port port small,
  xor_twice o0 0x21,
  xor_twice o1 0x12,
  xor_twice o2 0xA4,
  xor_twice o3 0x42,
)

attributes-masked :
    (n : ℕ) (tx rest : Bytes) (o0 o1 o2 o3 port : ℕ) (plain : Option SocketAddr)
    → port < 65536
    → attributes (suc n) tx (xor_attribute (o0 ∷ o1 ∷ o2 ∷ o3 ∷ []) port ++ rest) plain
      ≡ done (some (record { ip = o0 ∷ o1 ∷ o2 ∷ o3 ∷ []; port = port }))
unfolding attributes
attributes-masked n tx rest o0 o1 o2 o3 port plain small =
    let found = decode_address-masked tx o0 o1 o2 o3 port small in
    let enough : ltb (length (xor_attribute (o0 ∷ o1 ∷ o2 ∷ o3 ∷ []) port ++ rest)) 12 ≡ false =
      le→ltb _ _ (omega arith) in
    let some_left : ltb (length (xor_attribute (o0 ∷ o1 ∷ o2 ∷ o3 ∷ []) port ++ rest)) 4 ≡ false =
      le→ltb _ _ (omega arith) in
    rw some_left (rw enough (rw found refl))

attributes-plain_first :
    (n : ℕ) (tx rest : Bytes) (o0 o1 o2 o3 port : ℕ)
    → attributes (suc n) tx (plain_attribute (o0 ∷ o1 ∷ o2 ∷ o3 ∷ []) port ++ rest) none
      ≡ attributes n tx rest
          (decode_address (0 ∷ 1 ∷ be_u16 port ++ o0 ∷ o1 ∷ o2 ∷ o3 ∷ []) tx false)
unfolding attributes
attributes-plain_first n tx rest o0 o1 o2 o3 port =
    let enough : ltb (length (plain_attribute (o0 ∷ o1 ∷ o2 ∷ o3 ∷ []) port ++ rest)) 12 ≡ false =
      le→ltb _ _ (omega arith) in
    let some_left : ltb (length (plain_attribute (o0 ∷ o1 ∷ o2 ∷ o3 ∷ []) port ++ rest)) 4 ≡ false =
      le→ltb _ _ (omega arith) in
    rw some_left (rw enough refl)

parse-response :
    (tx attrs : Bytes)
    → length tx ≡ 12
    → length attrs < 65536
    → parse_binding_response tx (response tx attrs) ≡ attributes (length attrs) tx attrs none
unfolding parse_binding_response
parse-response tx attrs full small =
    let n = length attrs in
    let size : n / 256 * 256 + n % 256 ≡ n = omega arith in
    let total = length-append tx attrs in
    let head : ltb (length (response tx attrs)) 20 ≡ false = le→ltb _ _ (omega arith) in
    let whole : ltb (length (response tx attrs)) (20 + n) ≡ false = le→ltb _ _ (omega arith) in
    let echo : take 12 (tx ++ attrs) ≡ tx = rw (← full) (take-append_self tx attrs) in
    let body : drop 20 (response tx attrs) ≡ attrs = drop-twelve tx attrs full in
    let same = bytes_eq_refl tx in
    let all = take-all n attrs (omega arith) in
    rw head (rw echo (rw same (rw size (rw whole (rw body (rw all refl))))))
  where
    drop-twelve : (tx attrs : Bytes) → length tx ≡ 12 → drop 12 (tx ++ attrs) ≡ attrs
    drop-twelve tx attrs full = rw (← full) (drop-append_self tx attrs)

-- For a transaction id of twelve bytes and a port below 65536, a success response that has a plain
-- address attribute and after it the masked attribute for an address of version 4 is read as that
-- masked address and port.
pub parse-masked_after_plain :
    (tx : Bytes) (p0 p1 p2 p3 other o0 o1 o2 o3 port : ℕ)
    → length tx ≡ 12
    → port < 65536
    → parse_binding_response tx (
        response tx (
          plain_attribute (p0 ∷ p1 ∷ p2 ∷ p3 ∷ []) other
          ++ xor_attribute (o0 ∷ o1 ∷ o2 ∷ o3 ∷ []) port))
      ≡ done (some (record { ip = o0 ∷ o1 ∷ o2 ∷ o3 ∷ []; port = port }))
parse-masked_after_plain tx p0 p1 p2 p3 other o0 o1 o2 o3 port full small =
    parse-response tx
      (plain_attribute (p0 ∷ p1 ∷ p2 ∷ p3 ∷ []) other
        ++ xor_attribute (o0 ∷ o1 ∷ o2 ∷ o3 ∷ []) port)
      full (omega arith)
    ∙ attributes-plain_first 23 tx (xor_attribute (o0 ∷ o1 ∷ o2 ∷ o3 ∷ []) port) p0 p1 p2 p3 other
    ∙ attributes-masked 22 tx [] o0 o1 o2 o3 port
        (decode_address (0 ∷ 1 ∷ be_u16 other ++ p0 ∷ p1 ∷ p2 ∷ p3 ∷ []) tx false) small
