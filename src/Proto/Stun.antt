-- ===== src/Proto/Stun.antt =====
-- crates/proto/src/stun.rs: STUN binding requests and the address in their responses. An address is
-- its octets, four or sixteen, and its port.
pub mod Answers
use couchlink.Base.{
  ℕ, zero, suc, ◌+◌, ◌-◌, ◌*◌, ◌/◌, ◌%◌, ◌^◌, arith, List, [], ◌∷◌, ◌++◌, Option, none, some, Bool,
  true, false, ltb, leb, ◌==◌, not, bytes_eq, if◌then◌else◌, ◌||◌, length, get_or, take, drop,
  bit_xor,
}
use couchlink.Proto.Buffer.{Bytes}

abbrev pub magic_cookie : ℕ
magic_cookie = 0x2112_A442

-- The bytes of the cookie, most significant first.
abbrev pub cookie_bytes : Bytes
cookie_bytes = 0x21 ∷ 0x12 ∷ 0xA4 ∷ 0x42 ∷ []

abbrev pub binding_success : ℕ
binding_success = 0x0101

abbrev pub attr_mapped_address : ℕ
attr_mapped_address = 0x0001

abbrev pub attr_xor_mapped_address : ℕ
attr_xor_mapped_address = 0x0020

abbrev pub header_len : ℕ
header_len = 20

pub record SocketAddr : Type 0 where
  pub ip : Bytes
  pub port : ℕ

abbrev pub be_u16 : ℕ → Bytes
be_u16 n = n / 256 ∷ n % 256 ∷ []

-- `u16::from_be_bytes` of the two bytes from `i` on; the length tests before each use make them good.
abbrev pub u16_at : Bytes → ℕ → ℕ
u16_at buf i = get_or buf i 0 * 256 + get_or buf (i + 1) 0

unfoldable pub binding_request : Bytes → Bytes
binding_request tx = be_u16 0x0001 ++ be_u16 0 ++ cookie_bytes ++ tx

-- The loop over `zip`: the octets past the key's end stay.
abbrev pub xor_bytes : Bytes → Bytes → Bytes
xor_bytes [] ks = []
xor_bytes (o ∷ os) [] = o ∷ os
xor_bytes (o ∷ os) (k ∷ ks) = bit_xor o k ∷ xor_bytes os ks

abbrev pub unmask : Bool → Bytes → Bytes → Bytes
unmask true octets key = xor_bytes octets key
unmask false octets key = octets

abbrev pub unmask_port : Bool → ℕ → ℕ
unmask_port true raw = bit_xor raw 0x2112
unmask_port false raw = raw

unfoldable pub decode_address : Bytes → Bytes → Bool → Option SocketAddr
decode_address value tx xor =
    let family : ℕ = get_or value 1 0 in
    let port = unmask_port xor (u16_at value 2) in
    if ltb (length value) 4
    then none
    else if family == 1
    then (if ltb (length value) 8
        then none
        else some (record { ip = unmask xor (take 4 (drop 4 value)) cookie_bytes; port = port }))
    else if family == 2
    then (if ltb (length value) 20
        then none
        else some
            (record { ip = unmask xor (take 16 (drop 4 value)) (cookie_bytes ++ tx); port = port }))
    else none

-- The match of the loop on one attribute: the address to return, if it is found, and the plain one.
abbrev pub or_plain : Option SocketAddr → Option SocketAddr → Option SocketAddr
or_plain none a = a
or_plain (some p) a = some p

-- What the loop over the attributes gives; `out_of_fuel` is not a result of the code.
pub data Loop : Type 0 where
  done : Option SocketAddr → Loop
  out_of_fuel : Loop

abbrev pub padding : ℕ → ℕ
padding n = (4 - n % 4) % 4

-- The loop from `i` on, where `rest` is `buf[i..end]`.
unfoldable pub attributes : ℕ → Bytes → Bytes → Option SocketAddr → Loop
attributes zero tx rest plain = if ltb (length rest) 4 then done plain else out_of_fuel
attributes (suc n) tx rest plain =
    let attr_type = u16_at rest 0 in
    let attr_len = u16_at rest 2 in
    let value = take attr_len (drop 4 rest) in
    let next = drop (4 + (attr_len + padding attr_len)) rest in
    let go_on = attributes n tx next plain in
    let go_on_plain = attributes n tx next (or_plain plain (decode_address value tx false)) in
    if ltb (length rest) 4
    then done plain
    else if ltb (length rest) (4 + attr_len)
    then done none
    else if attr_type == attr_xor_mapped_address
    then (elim (decode_address value tx true) [ some a ↦ done (some a) | none ↦ go_on ])
    else if attr_type == attr_mapped_address
    then go_on_plain
    else go_on

unfoldable pub parse_binding_response : Bytes → Bytes → Loop
parse_binding_response tx buf =
    let attrs_len = u16_at buf 2 in
    if ltb (length buf) header_len
    then done none
    else if not (u16_at buf 0 == binding_success)
    then done none
    else if not (bytes_eq (take 4 (drop 4 buf)) cookie_bytes)
    then done none
    else if not (bytes_eq (take 12 (drop 8 buf)) tx)
    then done none
    else if ltb (length buf) (header_len + attrs_len)
    then done none
    else attributes attrs_len tx (take attrs_len (drop header_len buf)) none

unfoldable pub is_symmetric_nat : SocketAddr → SocketAddr → Bool
is_symmetric_nat a b = not (a.port == b.port) || not (bytes_eq a.ip b.ip)
