-- ===== src/Rsp/Frame/Complete.antt =====
-- Which inputs `uvdb_rsp_scan_frame` takes for a complete frame, and that it reads back what
-- `buffer_start_packet`, `buffer_write` and `buffer_end_packet` write.
use vita_debugger.Prelude.{
  ℕ, ◌+◌, ◌-◌, ◌*◌, ◌/◌, ◌%◌, ◌≤◌, ◌<◌, ◌≡◌, refl, sym, ap, ◌∙◌, false, List, [], ◌∷◌, ◌++◌, Option,
  none, some, arith, length, take, append_assoc, take-length-append, drop-length-append, subst,
}
use mathlib.Core.Path.{ap₂}
use vita_debugger.Rsp.Hex.{hex_value, hex_digit, hex_value-hex_digit, hex_value-lt}
use vita_debugger.Rsp.Frame.{
  complete, Frame, Scan, at_hash, malformed, ran_out, scan_marker, checksum, nack, check_sum,
  read_footer, finish, scan_frame, OutBuffer, int2hex, send_packet,
}
use vita_debugger.Rsp.Frame.Marker.{IsClean, Found, scan_marker-IsClean, scan_marker-Found}

-- The value of two checksum digits.
abbrev pub Footer : List ℕ → ℕ → ℕ → Type 0
Footer payload h l =
    (high : ℕ) × (low : ℕ) × (hex_value h ≡ some high)
    × (hex_value l ≡ some low)
    × (checksum 0 payload ≡ high * 16 + low)

-- The frame that a complete scan reports.
abbrev pub whole : List ℕ → Frame
whole payload = record {
  payload_offset = 1;
  payload_size = length payload;
  consumed_size = length payload + 4;
  request_nack = 0;
}

checksum-lt : (sum : ℕ) (bytes : List ℕ) → sum < 256 → checksum sum bytes < 256
unfolding checksum
checksum-lt sum [] h = h
checksum-lt sum (b ∷ bs) h = checksum-lt ((sum + b) % 256) bs (omega arith)

-- With its checksum right, the footer completes the frame.
finish-Footer :
    (max : ℕ) (payload tail : List ℕ) (h l : ℕ) (rest : List ℕ)
    → length payload ≤ max
    → Footer payload h l
    → finish max (payload ++ tail) (at_hash (1 + length payload) (h ∷ l ∷ rest))
      ≡ (complete, whole payload)
unfolding finish read_footer check_sum
finish-Footer max payload tail h l rest fits (high, low, eh, el, sum) = ground (
  arith,
  ap (λ (k : ℕ). take k (payload ++ tail)) e ∙ take-length-append payload tail,
  hex_value-lt h high eh,
  hex_value-lt l low el,
)
  where
    e : 1 + length payload - 1 ≡ length payload
    e = omega arith

int2hex-hex_digit : (n : ℕ) → int2hex n ≡ hex_digit n
unfolding int2hex hex_digit
int2hex-hex_digit n = ground arith

-- A well-formed frame of at most `max` payload bytes is reported whole, whatever follows it.
pub scan_frame-complete :
    (payload : List ℕ) (h l : ℕ) (rest : List ℕ) (max : ℕ)
    → IsClean false payload
    → length payload ≤ max
    → Footer payload h l
    → scan_frame (b'$' ∷ payload ++ b'#' ∷ h ∷ l ∷ rest) max ≡ (complete, whole payload)
unfolding scan_frame
scan_frame-complete payload h l rest max clean fits footer =
    ap (finish max (payload ++ b'#' ∷ h ∷ l ∷ rest))
      (scan_marker-IsClean max false 1 payload (h ∷ l ∷ rest) (omega arith) (omega arith) clean)
    ∙ finish-Footer max payload (b'#' ∷ h ∷ l ∷ rest) h l rest fits footer

-- What a complete scan says of its input.
pub record IsFrame (input : List ℕ) (max : ℕ) (frame : Frame) : Type 0 where
  pub payload : List ℕ
  pub h : ℕ
  pub l : ℕ
  pub rest : List ℕ
  pub split : input ≡ b'$' ∷ payload ++ b'#' ∷ h ∷ l ∷ rest
  pub clean : IsClean false payload
  pub fits : length payload ≤ max
  pub footer : Footer payload h l
  pub report : frame ≡ whole payload

abbrev footer_frame : ℕ → Frame
footer_frame marker = record {
  payload_offset = 1;
  payload_size = marker - 1;
  consumed_size = marker + 3;
  request_nack = 0;
}

check_sum-complete :
    (marker : ℕ) (payload : List ℕ) (oh ol : Option ℕ) (f : Frame)
    → ((v : ℕ) → oh ≡ some v → v < 16)
    → ((v : ℕ) → ol ≡ some v → v < 16)
    → check_sum marker payload oh ol ≡ (complete, f)
    → (high : ℕ) × (low : ℕ) × (oh ≡ some high)
      × (ol ≡ some low)
      × (checksum 0 payload ≡ high * 16 + low)
      × (f ≡ footer_frame marker)
unfolding check_sum nack
check_sum-complete marker payload none ol f bh bl e = ground arith
check_sum-complete marker payload (some high) none f bh bl e = ground arith
check_sum-complete marker payload (some high) (some low) f bh bl e =
    (high, low, refl, refl, ground (arith, bh high refl, bl low refl), ground arith)

read_footer-complete :
    (marker : ℕ) (payload rest : List ℕ) (f : Frame)
    → read_footer marker payload rest ≡ (complete, f)
    → (h : ℕ) × (l : ℕ) × (more : List ℕ) × (rest ≡ h ∷ l ∷ more)
      × Footer payload h l
      × (f ≡ footer_frame marker)
unfolding read_footer
read_footer-complete marker payload [] f e = ground arith
read_footer-complete marker payload (h ∷ []) f e = ground arith
read_footer-complete marker payload (h ∷ l ∷ more) f e =
    let (high, low, eh, el, sum, ef) =
      check_sum-complete marker payload (hex_value h) (hex_value l) f (hex_value-lt h)
        (hex_value-lt l) e in
    (h, l, more, refl, (high, low, eh, el, sum), ef)

finish-complete :
    (max : ℕ) (body : List ℕ) (s : Scan) (f : Frame)
    → finish max body s ≡ (complete, f)
    → (m : ℕ) × (rest : List ℕ) × (s ≡ at_hash m rest)
      × (m - 1 ≤ max)
      × (read_footer m (take (m - 1) body) rest ≡ (complete, f))
unfolding finish nack
finish-complete max body (malformed k) f e = ground arith
finish-complete max body ran_out f e = ground arith
finish-complete max body (at_hash m rest) f e = (m, rest, refl, ground arith, ground arith)

scan_frame-start :
    (c : ℕ) (cs : List ℕ) (max : ℕ) (f : Frame)
    → scan_frame (c ∷ cs) max ≡ (complete, f)
    → (c ≡ b'$') × (finish max cs (scan_marker max false 1 cs) ≡ (complete, f))
unfolding scan_frame
scan_frame-start c cs max f e = ground arith

IsFrame-Found :
    (cs : List ℕ) (max m h l : ℕ) (rest more : List ℕ) (f : Frame)
    → (found : Found false 1 cs m rest) → m - 1 ≤ max
    → rest ≡ h ∷ l ∷ more
    → Footer (take (m - 1) cs) h l
    → f ≡ footer_frame m
    → IsFrame (b'$' ∷ cs) max f
IsFrame-Found cs max m h l rest more f found fits er footer ef = record {
  payload = found.payload;
  h = h;
  l = l;
  rest = more;
  split = ap (◌∷◌ b'$') (found.split ∙ ap (λ r. found.payload ++ b'#' ∷ r) er);
  clean = found.clean;
  fits = omega (arith, found.place);
  footer = subst (λ p. Footer p h l) taken footer;
  report = ef ∙ ap₂ report_of (omega (arith, found.place)) (omega (arith, found.place));
}
  where
    taken : take (m - 1) cs ≡ found.payload
    taken =
        ap (λ (k : ℕ). take k cs) (omega (arith, found.place))
        ∙ ap (take (length found.payload)) found.split
        ∙ take-length-append found.payload (b'#' ∷ rest)

    report_of : ℕ → ℕ → Frame
    report_of size consumed = record {
      payload_offset = 1;
      payload_size = size;
      consumed_size = consumed;
      request_nack = 0;
    }

-- Only a well-formed frame of at most `max` payload bytes is reported, and its report is exact.
pub scan_frame-IsFrame :
    (input : List ℕ) (max : ℕ) (f : Frame)
    → scan_frame input max ≡ (complete, f)
    → IsFrame input max f
unfolding scan_frame
scan_frame-IsFrame [] max f e = ground arith
scan_frame-IsFrame (c ∷ cs) max f e =
    let (dollar, done) = scan_frame-start c cs max f e in
    let (m, rest, at, fits, read) = finish-complete max cs (scan_marker max false 1 cs) f done in
    let found = scan_marker-Found max false 1 cs at in
    let (h, l, more, er, footer, ef) = read_footer-complete m (take (m - 1) cs) rest f read in
    subst (λ (d : ℕ). IsFrame (d ∷ cs) max f) (sym dollar)
      (IsFrame-Found cs max m h l rest more f found fits er footer ef)

-- The buffer that a packet is sent from ends in one frame, and the scanner reads that frame back.
pub send_packet-Footer :
    (buf : OutBuffer) (payload : List ℕ)
    → (h : ℕ) × (l : ℕ) × Footer payload h l
      × ((send_packet buf payload).written ≡ buf.written ++ (b'$' ∷ payload ++ b'#' ∷ h ∷ l ∷ []))
unfolding send_packet
send_packet-Footer buf payload = (
  hex_digit (checksum 0 payload / 16),
  hex_digit (checksum 0 payload % 16),
  (
    checksum 0 payload / 16,
    checksum 0 payload % 16,
    hex_value-hex_digit _ (omega (arith, checksum-lt 0 payload)),
    hex_value-hex_digit _ (omega arith),
    omega arith,
  ),
  simp drop-length-append (simp (int2hex-hex_digit, append_assoc)),
)

-- A packet whose payload is clean and of at most `max` bytes is appended to the buffer as one
-- frame, which the scanner reports whole, whatever follows it.
pub scan_frame-send_packet :
    (buf : OutBuffer) (payload : List ℕ) (max : ℕ)
    → IsClean false payload
    → length payload ≤ max
    → (frame : List ℕ) × ((send_packet buf payload).written ≡ buf.written ++ frame)
      × ((rest : List ℕ) → scan_frame (frame ++ rest) max ≡ (complete, whole payload))
scan_frame-send_packet buf payload max clean fits =
    let (h, l, footer, e) = send_packet-Footer buf payload in
    (
      b'$' ∷ payload ++ b'#' ∷ h ∷ l ∷ [],
      e,
      λ rest. simp append_assoc (scan_frame-complete payload h l rest max clean fits footer),
    )
