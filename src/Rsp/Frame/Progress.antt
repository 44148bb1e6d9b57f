-- ===== src/Rsp/Frame/Progress.antt =====
-- What `uvdb_rsp_scan_frame` tells its receive loop: how much to drop, and when to answer '-'.
use vita_debugger.Prelude.{
  ℕ, suc, ◌+◌, ◌-◌, ◌*◌, ◌%◌, ◌≤◌, ◌<◌, ◌≡◌, ◌⊎◌, inl, inr, refl, Bool, true, false, List, [], ◌∷◌,
  Option, none, some, arith, ltb, ◌==◌, if◌then◌else◌, length, take, ap, length-append, Bool-cases,
}
use vita_debugger.Rsp.Hex.{hex_value}
use vita_debugger.Rsp.Frame.{
  Status, discard, complete, incomplete, Frame, no_frame, Scan, at_hash, malformed, ran_out,
  find_start, scan_marker, checksum, nack, check_sum, read_footer, finish, scan_frame,
}
use vita_debugger.Rsp.Frame.Marker.{Found, scan_marker-Found, scan_marker-malformed}

find_start-le : (bytes : List ℕ) → find_start bytes ≤ length bytes
unfolding find_start
find_start-le [] = omega arith
find_start-le (c ∷ cs) = ground (arith, find_start-le cs)

suc-==-zero : (n : ℕ) → (suc n == 0) ≡ false
suc-==-zero n = ground arith

-- Whether the input begins with a '$'.
abbrev pub starts : List ℕ → Bool
starts [] = false
starts (c ∷ cs) = c == b'$'

-- What each verdict says of an input of `size` bytes that does or does not begin with '$'.
abbrev pub Verdict : ℕ → Bool → ℕ → Status × Frame → Type 0
Verdict size dollar max (discard, f) =
    (0 < f.consumed_size) × (f.consumed_size ≤ size) × (f.request_nack ≡ (if dollar then 1 else 0))
Verdict size dollar max (incomplete, f) =
    (f ≡ no_frame) × (size ≤ max + 3) × ((size ≡ 0) ⊎ (dollar ≡ true))
Verdict size dollar max (complete, f) =
    (0 < f.consumed_size) × (f.consumed_size ≤ size) × (dollar ≡ true) × (f.request_nack ≡ 0)

check_sum-Verdict :
    (marker size max : ℕ) (payload : List ℕ) (high low : Option ℕ)
    → marker + 3 ≤ size
    → Verdict size true max (check_sum marker payload high low)
unfolding check_sum nack
check_sum-Verdict marker size max payload none low h = omega arith
check_sum-Verdict marker size max payload (some high) none h = omega arith
check_sum-Verdict marker size max payload (some high) (some low) h =
    elim (Bool-cases (checksum 0 payload == (high * 16 + low) % 256)) [
      | inl e ↦ rw e (omega arith, omega arith, refl, refl)
      | inr e ↦ rw e (omega arith)
    ]

read_footer-Verdict :
    (marker size max : ℕ) (payload rest : List ℕ)
    → size ≡ marker + 1 + length rest
    → marker - 1 ≤ max
    → Verdict size true max (read_footer marker payload rest)
unfolding read_footer
read_footer-Verdict marker size max payload [] e fits = (refl, omega arith, inr refl)
read_footer-Verdict marker size max payload (h ∷ []) e fits = (refl, omega arith, inr refl)
read_footer-Verdict marker size max payload (h ∷ l ∷ rest) e fits =
    check_sum-Verdict marker size max payload (hex_value h) (hex_value l) (omega arith)

at_hash-size :
    (cs : List ℕ) (m : ℕ) (rest : List ℕ)
    → Found false 1 cs m rest
    → length cs + 1 ≡ m + 1 + length rest
at_hash-size cs m rest f =
    omega (arith, ap length f.split, length-append f.payload (b'#' ∷ rest), f.place)

finish-Verdict :
    (max size : ℕ) (cs : List ℕ) (s : Scan)
    → size ≡ length cs + 1
    → scan_marker max false 1 cs ≡ s
    → Verdict size true max (finish max cs s)
unfolding finish nack
finish-Verdict max n cs (malformed k) en e =
    let b = scan_marker-malformed max false 1 cs k (omega arith) e in
    (omega (arith, b), omega (arith, b), refl)
finish-Verdict max n cs ran_out en e = elim (Bool-cases (ltb max (length cs))) [
  | inl over ↦ rw over (omega arith)
  | inr fits ↦ rw fits (refl, ground arith, inr refl)
]
finish-Verdict max n cs (at_hash m rest) en e =
    let size = at_hash-size cs m rest (scan_marker-Found max false 1 cs e) in
    elim (Bool-cases (ltb max (m - 1))) [
      | inl over ↦ rw over (omega (arith, size))
      | inr fits ↦
          rw fits (
            read_footer-Verdict m n max (take (m - 1) cs) rest (omega (arith, size)) (ground arith))
    ]

-- Every verdict makes progress and stays in bounds. A discarded input loses between one and all of
-- its bytes, and is answered by '-' exactly if it began with '$'. An incomplete one is left whole;
-- it is empty, or begins with '$' and is at most three bytes longer than the largest payload. A
-- complete one began with '$', and its frame lies within the input.
pub scan_frame-Verdict :
    (input : List ℕ) (max : ℕ) → Verdict (length input) (starts input) max (scan_frame input max)
unfolding scan_frame
scan_frame-Verdict [] max = (refl, omega arith, inl refl)
scan_frame-Verdict (c ∷ cs) max = elim (Bool-cases (c == b'$')) [
  | inl dollar ↦ rw dollar (finish-Verdict max (suc (length cs)) cs _ (omega arith) refl)
  | inr noise ↦
      rw (noise, suc-==-zero (find_start cs)) (omega arith, omega (arith, find_start-le cs), refl)
]
