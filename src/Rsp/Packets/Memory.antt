-- ===== src/Rsp/Packets/Memory.antt =====
-- The `m` and `M` packets: what `parse_memory_packet` accepts, and what a request promises.
use vita_debugger.Prelude.{
  ℕ, ◌-◌, ◌*◌, ◌/◌, ◌^◌, ◌≤◌, ◌≡◌, sym, ap, ◌∙◌, true, List, [], ◌∷◌, ◌++◌, none, some, arith,
  length, subst, ◌↔◌, length-append,
}
use mathlib.Core.Path.{ap₂}
use vita_debugger.Rsp.Hex.{validate_hex_value, all_hex}
use vita_debugger.Rsp.Packets.Fields.{
  length-pos, scan_to-Free, behind-scan_to, parse_u32_hex-Free, IsRange, parse_memory_range-IsRange,
  comma_unread, colon_unread, parse_u32_hex-is_empty, IsRange-parse_memory_range,
}
use vita_debugger.Rsp.Packets.{
  scan_to, behind, MemoryRequest, parse_memory_range, parse_memory_read_packet,
  parse_memory_write_packet,
}

-- A packet that is a memory write: its fields, and data of two hexadecimal digits for each byte.
pub record IsWrite (packet : List ℕ) (max : ℕ) (r : MemoryRequest) : Type 0 where
  pub address_text : List ℕ
  pub length_text : List ℕ
  pub bytes_text : List ℕ
  pub split : packet ≡ b'M' ∷ (address_text ++ b',' ∷ (length_text ++ b':' ∷ bytes_text))
  pub range : IsRange address_text length_text max r.address r.size
  pub carried : r.data_text ≡ some bytes_text
  pub measured : length bytes_text ≡ r.size * 2
  pub digits : all_hex bytes_text ≡ true
  pub small : r.size ≤ (2 ^ 32 - 1) / 2

pub record IsRead (packet : List ℕ) (max : ℕ) (r : MemoryRequest) : Type 0 where
  pub address_text : List ℕ
  pub length_text : List ℕ
  pub split : packet ≡ b'm' ∷ address_text ++ b',' ∷ length_text
  pub range : IsRange address_text length_text max r.address r.size
  pub empty : r.data_text ≡ none

read_steps :
    (c : ℕ) (body : List ℕ) (max : ℕ) (r : MemoryRequest)
    → parse_memory_read_packet (c ∷ body) max ≡ some r
    → (c ≡ b'm')
      × (l : List ℕ) × (behind (scan_to b',' body).1 ≡ some l)
      × (parse_memory_range (scan_to b',' body).0 l max ≡ some (r.address, r.size))
      × (r.data_text ≡ none)
unfolding parse_memory_read_packet
read_steps c body max r h = ground arith

write_steps :
    (c : ℕ) (body : List ℕ) (max : ℕ) (r : MemoryRequest)
    → parse_memory_write_packet (c ∷ body) max ≡ some r
    → (c ≡ b'M')
      × (rest : List ℕ) × (behind (scan_to b',' body).1 ≡ some rest)
      × (bytes : List ℕ) × (behind (scan_to b':' rest).1 ≡ some bytes)
      × (parse_memory_range (scan_to b',' body).0 (scan_to b':' rest).0 max
          ≡ some (r.address, r.size))
      × (r.data_text ≡ some bytes)
      × (length bytes ≡ r.size * 2)
      × (validate_hex_value bytes r.size ≡ true)
      × (r.size ≤ (2 ^ 32 - 1) / 2)
unfolding parse_memory_write_packet
write_steps c body max r h = ground arith

validate-all_hex : (text : List ℕ) (n : ℕ) → validate_hex_value text n ≡ true → all_hex text ≡ true
unfolding validate_hex_value
validate-all_hex text n h = ground arith

all_hex-validate :
    (text : List ℕ) (n : ℕ)
    → n ≤ (2 ^ 32 - 1) / 2
    → length text ≡ n * 2
    → all_hex text ≡ true
    → validate_hex_value text n ≡ true
unfolding validate_hex_value
all_hex-validate text n small e h = ground arith

parse_memory_write_packet-IsWrite :
    (packet : List ℕ) (max : ℕ) (r : MemoryRequest)
    → parse_memory_write_packet packet max ≡ some r
    → IsWrite packet max r
unfolding parse_memory_write_packet
parse_memory_write_packet-IsWrite [] max r h = ground arith
parse_memory_write_packet-IsWrite (c ∷ body) max r h =
    let (ec, rest, comma, bytes, colon, range, carried, measured, digits, small) =
      write_steps c body max r h in
    let range' =
      parse_memory_range-IsRange (scan_to b',' body).0 (scan_to b':' rest).0 max (r.address, r.size)
        range in
    record {
      address_text = (scan_to b',' body).0;
      length_text = (scan_to b':' rest).0;
      bytes_text = bytes;
      split = ap₂ ◌∷◌ ec (
          behind-scan_to b',' body rest comma
          ∙ ap (λ t. (scan_to b',' body).0 ++ b',' ∷ t) (behind-scan_to b':' rest bytes colon));
      range = range';
      carried = carried;
      measured = measured;
      digits = validate-all_hex bytes r.size digits;
      small = small;
    }

parse_memory_read_packet-IsRead :
    (packet : List ℕ) (max : ℕ) (r : MemoryRequest)
    → parse_memory_read_packet packet max ≡ some r
    → IsRead packet max r
unfolding parse_memory_read_packet
parse_memory_read_packet-IsRead [] max r h = ground arith
parse_memory_read_packet-IsRead (c ∷ body) max r h =
    let (ec, l, comma, range, empty) = read_steps c body max r h in
    record {
      address_text = (scan_to b',' body).0;
      length_text = l;
      split = ap₂ ◌∷◌ ec (behind-scan_to b',' body l comma);
      range = parse_memory_range-IsRange (scan_to b',' body).0 l max (r.address, r.size) range;
      empty = empty;
    }

read_back :
    (a l : List ℕ) (max address size : ℕ)
    → IsRange a l max address size
    → parse_memory_read_packet (b'm' ∷ a ++ b',' ∷ l) max
      ≡ some (record { address = address; size = size; data_text = none })
unfolding parse_memory_read_packet behind
read_back a l max address size r = ground (
  arith,
  length-append a (b',' ∷ l),
  length-pos a (parse_u32_hex-is_empty a address r.address_read),
  length-pos l (parse_u32_hex-is_empty l size r.size_read),
  scan_to-Free b',' a l (parse_u32_hex-Free b',' a address comma_unread r.address_read),
  IsRange-parse_memory_range a l max address size r,
)

-- A memory read is accepted exactly if it is `m`, an address, a comma and a size, both of one to 8
-- hexadecimal digits, with the size within the bound and the range within the 32-bit space.
pub parse_memory_read_packet_iff :
    (packet : List ℕ) (max : ℕ) (r : MemoryRequest)
    → (parse_memory_read_packet packet max ≡ some r) ↔ IsRead packet max r
parse_memory_read_packet_iff packet max r = (
  parse_memory_read_packet-IsRead packet max r,
  λ f.
      subst (λ p. parse_memory_read_packet p max ≡ some r) (sym f.split)
        (read_back f.address_text f.length_text max r.address r.size f.range
          ∙ ap (λ d. some (record { address = r.address; size = r.size; data_text = d }))
              (sym f.empty)),
)

write_back :
    (a l bytes : List ℕ) (max address size : ℕ)
    → IsRange a l max address size
    → length bytes ≡ size * 2
    → all_hex bytes ≡ true
    → size ≤ (2 ^ 32 - 1) / 2
    → parse_memory_write_packet (b'M' ∷ (a ++ b',' ∷ (l ++ b':' ∷ bytes))) max
      ≡ some (record { address = address; size = size; data_text = some bytes })
unfolding parse_memory_write_packet behind
write_back a l bytes max address size r e digits small = ground (
  arith,
  length-append a (b',' ∷ (l ++ b':' ∷ bytes)),
  length-append l (b':' ∷ bytes),
  length-pos a (parse_u32_hex-is_empty a address r.address_read),
  length-pos l (parse_u32_hex-is_empty l size r.size_read),
  scan_to-Free b',' a (l ++ b':' ∷ bytes)
      (parse_u32_hex-Free b',' a address comma_unread r.address_read),
  scan_to-Free b':' l bytes (parse_u32_hex-Free b':' l size colon_unread r.size_read),
  IsRange-parse_memory_range a l max address size r,
  all_hex-validate bytes size small e digits,
)

-- A memory write is accepted exactly if it is `M`, an address, a comma, a size, a colon and data:
-- both numbers of one to 8 hexadecimal digits, the size within the bound and below 2 ^ 31, the
-- range within the 32-bit space, and the data two hexadecimal digits for each byte.
pub parse_memory_write_packet_iff :
    (packet : List ℕ) (max : ℕ) (r : MemoryRequest)
    → (parse_memory_write_packet packet max ≡ some r) ↔ IsWrite packet max r
parse_memory_write_packet_iff packet max r = (
  parse_memory_write_packet-IsWrite packet max r,
  λ f.
      subst (λ p. parse_memory_write_packet p max ≡ some r) (sym f.split)
        (write_back f.address_text f.length_text f.bytes_text max r.address r.size f.range
            f.measured f.digits f.small
          ∙ ap (λ d. some (record { address = r.address; size = r.size; data_text = d }))
              (sym f.carried)),
)
