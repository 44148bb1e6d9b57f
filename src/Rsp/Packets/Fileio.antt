-- ===== src/Rsp/Packets/Fileio.antt =====
-- File-I/O replies, `F[-]RESULT[,ERRNO[,C]][;ATTACHMENT]`: every reply of that form is parsed into
-- its parts.
use vita_debugger.Prelude.{
  ℕ, ◌-◌, ◌%◌, ◌^◌, ◌≤◌, ◌≡◌, refl, sym, ap, Bool, true, false, List, [], ◌∷◌, ◌++◌, Option, none,
  some, arith, if◌then◌else◌, append-nil,
}
use vita_debugger.Rsp.Hex.{hex_value}
use vita_debugger.Rsp.Numbers.{parse_u32_hex}
use vita_debugger.Rsp.Packets.{
  scan_to, is_empty, behind, fileio_sign, fileio_interrupt, fileio_errno, parse_fileio_packet,
}
use vita_debugger.Rsp.Packets.Fields.{
  Free, scan_to-Free, parse_u32_hex-Free, comma_unread, parse_u32_hex-is_empty,
}

-- The error number of a reply, with the flag of an interrupt, in the packet's text.
abbrev pub errno_text : Option (List ℕ × Bool) → List ℕ
errno_text none = []
errno_text (some (error, interrupted)) =
    b',' ∷ (error ++ (if interrupted then b',' ∷ b'C' ∷ [] else []))

abbrev pub attachment_text : Option (List ℕ) → List ℕ
attachment_text none = []
attachment_text (some attachment) = b';' ∷ attachment

abbrev pub sign_text : Bool → List ℕ
sign_text negative = if negative then b'-' ∷ [] else []

-- The reply as gdb sends it.
abbrev pub reply_text : Bool → List ℕ → Option (List ℕ × Bool) → Option (List ℕ) → List ℕ
reply_text negative result errno attachment =
    b'F' ∷ ((sign_text negative ++ (result ++ errno_text errno)) ++ attachment_text attachment)

-- What the parser reports of the error number.
abbrev pub ErrnoReads : Option (List ℕ × Bool) → ℕ × Bool × Bool → Type 0
ErrnoReads none tail = tail ≡ (0, false, false)
ErrnoReads (some (error, interrupted)) tail =
    (parse_u32_hex error ≡ some tail.0) × (tail.1 ≡ true) × (tail.2 ≡ interrupted)

Free-append : (mark : ℕ) (xs ys : List ℕ) → Free mark xs → Free mark ys → Free mark (xs ++ ys)
Free-append mark [] ys h k = k
Free-append mark (x ∷ xs) ys h k = (h.0, Free-append mark xs ys h.1 k)

scan_to-end : (mark : ℕ) (text : List ℕ) → Free mark text → scan_to mark text ≡ (text, [])
unfolding scan_to
scan_to-end mark [] h = refl
scan_to-end mark (c ∷ cs) h = ground (arith, scan_to-end mark cs h.1)

semicolon_unread : hex_value b';' ≡ none
unfolding hex_value
semicolon_unread = refl

minus_unread : hex_value b'-' ≡ none
unfolding hex_value
minus_unread = refl

errno-Free :
    (errno : Option (List ℕ × Bool)) (tail : ℕ × Bool × Bool)
    → ErrnoReads errno tail
    → Free b';' (errno_text errno)
errno-Free none tail h = tt
errno-Free (some (error, true)) tail h = (
  λ e. omega arith,
  Free-append b';' error (b',' ∷ b'C' ∷ [])
      (parse_u32_hex-Free b';' error tail.0 semicolon_unread h.0)
      (λ e. omega arith, (λ e. omega arith, tt)),
)
errno-Free (some (error, false)) tail h = (
  λ e. omega arith,
  Free-append b';' error [] (parse_u32_hex-Free b';' error tail.0 semicolon_unread h.0) tt,
)

is_empty-append : (xs ys : List ℕ) → is_empty xs ≡ false → is_empty (xs ++ ys) ≡ false
unfolding is_empty
is_empty-append [] ys h = ground arith
is_empty-append (x ∷ xs) ys h = refl

errno_read :
    (errno : Option (List ℕ × Bool)) (tail : ℕ × Bool × Bool)
    → ErrnoReads errno tail
    → fileio_errno (errno_text errno) ≡ some tail
unfolding fileio_errno fileio_interrupt
errno_read none tail h = ap some (sym h)
errno_read (some (error, true)) tail h = ground (
  arith,
  is_empty-append error (b',' ∷ b'C' ∷ []) (parse_u32_hex-is_empty error tail.0 h.0),
  scan_to-Free b',' error (b'C' ∷ []) (parse_u32_hex-Free b',' error tail.0 comma_unread h.0),
)
errno_read (some (error, false)) tail h = ground (
  arith,
  is_empty-append error [] (parse_u32_hex-is_empty error tail.0 h.0),
  append-nil error,
  scan_to-end b',' error (parse_u32_hex-Free b',' error tail.0 comma_unread h.0),
)

-- The result field ends at the comma of the error number, or at the end.
result_scanned :
    (result : List ℕ) (errno : Option (List ℕ × Bool))
    → Free b',' result
    → scan_to b',' (result ++ errno_text errno) ≡ (result, errno_text errno)
result_scanned result none h = rw (append-nil result) (scan_to-end b',' result h)
result_scanned result (some (error, interrupted)) h = scan_to-Free b',' result _ h

sign_read :
    (negative : Bool) (result rest : List ℕ)
    → Free b'-' result
    → is_empty result ≡ false
    → fileio_sign (sign_text negative ++ (result ++ rest)) ≡ some (negative, result ++ rest)
unfolding fileio_sign is_empty
sign_read negative [] rest h k = ground arith
sign_read true (c ∷ cs) rest h k = refl
sign_read false (c ∷ cs) rest h k = ground arith

attachment_scanned :
    (header : List ℕ) (attachment : Option (List ℕ))
    → Free b';' header
    → (scan_to b';' (header ++ attachment_text attachment)).0 ≡ header
attachment_scanned header none h = rw (append-nil header, scan_to-end b';' header h)
attachment_scanned header (some text) h =
    ap (λ (p : List ℕ × List ℕ). p.0) (scan_to-Free b';' header text h)

attachment_behind :
    (header : List ℕ) (attachment : Option (List ℕ))
    → Free b';' header
    → behind (scan_to b';' (header ++ attachment_text attachment)).1 ≡ attachment
unfolding behind
attachment_behind header none h = rw (append-nil header, scan_to-end b';' header h)
attachment_behind header (some text) h = rw (scan_to-Free b';' header text h)

header-Free :
    (negative : Bool) (result : List ℕ) (magnitude : ℕ) (errno : Option (List ℕ × Bool))
    (tail : ℕ × Bool × Bool)
    → parse_u32_hex result ≡ some magnitude
    → ErrnoReads errno tail
    → Free b';' (sign_text negative ++ (result ++ errno_text errno))
header-Free negative result magnitude errno tail h k = signed negative
  where
    body : Free b';' (result ++ errno_text errno)
    body =
        Free-append b';' result (errno_text errno)
          (parse_u32_hex-Free b';' result magnitude semicolon_unread h) (errno-Free errno tail k)

    signed : (n : Bool) → Free b';' (sign_text n ++ (result ++ errno_text errno))
    signed true = (λ e. omega arith, body)
    signed false = body

-- Every well-formed reply is parsed into its parts: the result in two's complement, the error number
-- and the interrupt flag if they are there, and the attachment if there is one.
pub parse_fileio_packet-reply :
    (negative : Bool) (result : List ℕ) (errno : Option (List ℕ × Bool))
    (attachment : Option (List ℕ)) (magnitude : ℕ) (tail : ℕ × Bool × Bool)
    → parse_u32_hex result ≡ some magnitude
    → (negative ≡ true → magnitude ≤ 2 ^ 31)
    → ErrnoReads errno tail
    → parse_fileio_packet (reply_text negative result errno attachment)
      ≡ some (record {
        result = if negative then (2 ^ 32 - magnitude) % 2 ^ 32 else magnitude;
        error_number = tail.0;
        has_error_number = tail.1;
        interrupted = tail.2;
        attachment = attachment;
      })
unfolding parse_fileio_packet is_empty
parse_fileio_packet-reply negative result errno attachment magnitude tail h small k = ground (
  arith,
  small,
  is_empty-append _ (attachment_text attachment) nonempty,
  attachment_scanned header attachment header_free,
  attachment_behind header attachment header_free,
  sign_read negative result (errno_text errno)
      (parse_u32_hex-Free b'-' result magnitude minus_unread h)
      (parse_u32_hex-is_empty result magnitude h),
  result_scanned result errno (parse_u32_hex-Free b',' result magnitude comma_unread h),
  errno_read errno tail k,
)
  where
    header : List ℕ
    header = sign_text negative ++ (result ++ errno_text errno)

    header_free : Free b';' header
    header_free = header-Free negative result magnitude errno tail h k

    filled : (n : Bool) → is_empty (sign_text n ++ (result ++ errno_text errno)) ≡ false
    filled true = refl
    filled false = is_empty-append result _ (parse_u32_hex-is_empty result magnitude h)

    nonempty : is_empty header ≡ false
    nonempty = filled negative
