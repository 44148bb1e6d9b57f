-- ===== src/Rsp/Packets/Requests.antt =====
-- `Z0`/`z0` packets and `qXfer` ranges: what the parsers accept.
use mathlib.Core.Path.{ap₂}
use vita_debugger.Prelude.{
  ℕ, ◌+◌, ◌-◌, ◌^◌, ◌≤◌, ◌<◌, ◌≡◌, sym, Bool, List, [], ◌∷◌, ◌++◌, some, arith, if◌then◌else◌,
  subst, ◌↔◌, length-append,
}
use vita_debugger.Rsp.Numbers.{parse_u32_hex, parse_u64_hex, parse_u64_hex-lt}
use vita_debugger.Rsp.Packets.{
  scan_to, behind, BreakpointRequest, parse_software_breakpoint_packet, XferRange, parse_xfer_range,
}
use vita_debugger.Rsp.Packets.Fields.{
  scan_to-Free, behind-scan_to, parse_u32_hex-Free, parse_u64_hex-Free, comma_unread,
  parse_u32_hex-is_empty, parse_u64_hex-is_empty, length-pos,
}

-- A software breakpoint request: `Z0` to insert or `z0` to remove, an address and a kind.
pub record IsBreakpoint (packet : List ℕ) (r : BreakpointRequest) : Type 0 where
  pub address_text : List ℕ
  pub kind_text : List ℕ
  pub split :
      packet ≡ (if r.insert then b'Z' else b'z') ∷ b'0' ∷ b',' ∷ (address_text ++ b',' ∷ kind_text)
  pub address_read : parse_u32_hex address_text ≡ some r.address
  pub kind_read : parse_u32_hex kind_text ≡ some r.kind

breakpoint_steps :
    (z o f : ℕ) (body : List ℕ) (r : BreakpointRequest)
    → parse_software_breakpoint_packet (z ∷ o ∷ f ∷ body) ≡ some r
    → (z ≡ (if r.insert then b'Z' else b'z'))
      × (o ≡ b'0')
      × (f ≡ b',')
      × (k : List ℕ) × (behind (scan_to b',' body).1 ≡ some k)
      × (parse_u32_hex (scan_to b',' body).0 ≡ some r.address)
      × (parse_u32_hex k ≡ some r.kind)
unfolding parse_software_breakpoint_packet
breakpoint_steps z o f body r h = ground arith

parse_software_breakpoint_packet-IsBreakpoint :
    (packet : List ℕ) (r : BreakpointRequest)
    → parse_software_breakpoint_packet packet ≡ some r
    → IsBreakpoint packet r
unfolding parse_software_breakpoint_packet
parse_software_breakpoint_packet-IsBreakpoint [] r h = ground arith
parse_software_breakpoint_packet-IsBreakpoint (z ∷ []) r h = ground arith
parse_software_breakpoint_packet-IsBreakpoint (z ∷ o ∷ []) r h = ground arith
parse_software_breakpoint_packet-IsBreakpoint (z ∷ o ∷ f ∷ body) r h =
    let (ez, eo, ef, k, comma, address, kind) = breakpoint_steps z o f body r h in
    record {
      address_text = (scan_to b',' body).0;
      kind_text = k;
      split = ap₂ ◌∷◌ ez (ap₂ ◌∷◌ eo (ap₂ ◌∷◌ ef (behind-scan_to b',' body k comma)));
      address_read = address;
      kind_read = kind;
    }

breakpoint_back :
    (insert : Bool) (a k : List ℕ) (address kind : ℕ)
    → parse_u32_hex a ≡ some address
    → parse_u32_hex k ≡ some kind
    → parse_software_breakpoint_packet
        ((if insert then b'Z' else b'z') ∷ b'0' ∷ b',' ∷ (a ++ b',' ∷ k))
      ≡ some (record { insert = insert; address = address; kind = kind })
unfolding parse_software_breakpoint_packet behind
breakpoint_back insert a k address kind ha hk = ground (
  arith,
  length-append a (b',' ∷ k),
  parse_u32_hex-is_empty a address ha,
  parse_u32_hex-is_empty k kind hk,
  length-pos a (parse_u32_hex-is_empty a address ha),
  length-pos k (parse_u32_hex-is_empty k kind hk),
  scan_to-Free b',' a k (parse_u32_hex-Free b',' a address comma_unread ha),
)

-- A software breakpoint packet is accepted exactly if it is `Z0,` or `z0,`, an address, a comma and
-- a kind, both of one to 8 hexadecimal digits; `Z` inserts and `z` removes.
pub parse_software_breakpoint_packet_iff :
    (packet : List ℕ) (r : BreakpointRequest)
    → (parse_software_breakpoint_packet packet ≡ some r) ↔ IsBreakpoint packet r
parse_software_breakpoint_packet_iff packet r = (
  parse_software_breakpoint_packet-IsBreakpoint packet r,
  λ f.
      subst (λ p. parse_software_breakpoint_packet p ≡ some r) (sym f.split)
        (breakpoint_back r.insert f.address_text f.kind_text r.address r.kind f.address_read
          f.kind_read),
)

-- A transfer range: two 64-bit fields whose sum does not overflow.
pub record IsXferRange (text : List ℕ) (r : XferRange) : Type 0 where
  pub offset_text : List ℕ
  pub length_text : List ℕ
  pub split : text ≡ offset_text ++ b',' ∷ length_text
  pub offset_read : parse_u64_hex offset_text ≡ some r.offset
  pub length_read : parse_u64_hex length_text ≡ some r.span
  pub in_range : r.offset + r.span < 2 ^ 64

xfer_steps :
    (text : List ℕ) (r : XferRange)
    → parse_xfer_range text ≡ some r
    → (l : List ℕ) × (behind (scan_to b',' text).1 ≡ some l)
      × (parse_u64_hex (scan_to b',' text).0 ≡ some r.offset)
      × (parse_u64_hex l ≡ some r.span)
      × (r.offset ≤ 2 ^ 64 - 1 - r.span)
unfolding parse_xfer_range
xfer_steps text r h = ground arith

parse_xfer_range-IsXferRange :
    (text : List ℕ) (r : XferRange) → parse_xfer_range text ≡ some r → IsXferRange text r
parse_xfer_range-IsXferRange text r h =
    let (l, comma, offset, span, room) = xfer_steps text r h in
    record {
      offset_text = (scan_to b',' text).0;
      length_text = l;
      split = behind-scan_to b',' text l comma;
      offset_read = offset;
      length_read = span;
      in_range = omega (arith, parse_u64_hex-lt l r.span span);
    }

xfer_back :
    (a l : List ℕ) (offset span : ℕ)
    → parse_u64_hex a ≡ some offset
    → parse_u64_hex l ≡ some span
    → offset + span < 2 ^ 64
    → parse_xfer_range (a ++ b',' ∷ l) ≡ some (record { offset = offset; span = span })
unfolding parse_xfer_range behind
xfer_back a l offset span ha hl room = ground (
  arith,
  length-append a (b',' ∷ l),
  parse_u64_hex-is_empty a offset ha,
  parse_u64_hex-is_empty l span hl,
  length-pos a (parse_u64_hex-is_empty a offset ha),
  length-pos l (parse_u64_hex-is_empty l span hl),
  scan_to-Free b',' a l (parse_u64_hex-Free b',' a offset comma_unread ha),
)

-- A transfer range is accepted exactly if it is two numbers of one to 16 hexadecimal digits round a
-- comma whose sum is below 2 ^ 64.
parse_xfer_range_iff :
    (text : List ℕ) (r : XferRange) → (parse_xfer_range text ≡ some r) ↔ IsXferRange text r
parse_xfer_range_iff text r = (
  parse_xfer_range-IsXferRange text r,
  λ f.
      subst (λ p. parse_xfer_range p ≡ some r) (sym f.split)
        (xfer_back f.offset_text f.length_text r.offset r.span f.offset_read f.length_read
          f.in_range),
)
