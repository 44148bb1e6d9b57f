-- ===== src/Codec/Watch.antt =====
-- What the encoded comparators match. The debug unit compares the word of an access with the value
-- register, and the byte address select bits of the control register say which of its bytes match
-- (ARMv7 debug architecture, BVR/BCR and WVR/WCR).
use vita_debugger.Prelude.{
  ◌≢◌, ℕ, ◌+◌, ◌-◌, ◌*◌, ◌/◌, ◌%◌, ◌^◌, ◌<◌, ◌≤◌, ◌≡◌, ◌⊎◌, ◌↔◌, inl, inr, refl, ap, subst, Bool,
  true, ◌&&◌, ltb, leb, ◌==◌, ==_iff, arith,
}
use vita_debugger.Codec.{
  CodecResult, ok, Encoding, encode_linked_watch, encode_linked_exec, contiguous_bas, exec_control,
  watch_control, range_contains, fsr_is_debug_event, fsr_status,
}
use vita_debugger.Codec.Tables.{
  selects, has_fields, watch_control-selects, watch_control-fields, exec_control-selects,
  exec_control-fields,
}

-- The bytes of memory that a comparator matches.
abbrev pub matches : Encoding → ℕ → Bool
matches encoding b = b / 4 * 4 == encoding.value && selects encoding.control (b % 4)

word_bytes :
    (a l b : ℕ)
    → a % 4 + l ≤ 4
    → ((b / 4 * 4 == a - a % 4 && (leb (a % 4) (b % 4) && ltb (b % 4) (a % 4 + l))) ≡ true)
      ↔ ((a ≤ b) × (b < a + l))
word_bytes a l b h = (λ e. ground arith, λ (u, v). ground arith)

-- What both encoders need of their arguments.
abbrev pub Watchable : ℕ → ℕ → ℕ → Type 0
Watchable address length access =
    ((length ≡ 1) ⊎ ((length ≡ 2) ⊎ (length ≡ 4)))
    × ((access ≡ 1) ⊎ ((access ≡ 2) ⊎ (access ≡ 3)))
    × (address % 4 + length ≤ 4)

watch_ok :
    (address length access : ℕ)
    → (encode_linked_watch address length access).0 ≡ ok
    → Watchable address length access
unfolding encode_linked_watch
watch_ok address length access h = ground arith

ok_watch :
    (address length access : ℕ)
    → Watchable address length access
    → encode_linked_watch address length access ≡ (
      ok,
      record {
        value = address - address % 4;
        control = watch_control (contiguous_bas (address % 4) length) access;
      },
    )
unfolding encode_linked_watch
ok_watch address length access h = ground arith

matches_lem :
    (address length control b : ℕ)
    → address % 4 + length ≤ 4
    → selects control (b % 4) ≡ (leb (address % 4) (b % 4) && ltb (b % 4) (address % 4 + length))
    → (matches (record { value = address - address % 4; control = control }) b ≡ true)
      ↔ ((address ≤ b) × (b < address + length))
matches_lem address length control b h e = rw e (word_bytes address length b h)

ok_or : (r : CodecResult) → (r ≡ ok) ⊎ (r ≢ ok)
ok_or ok = inl refl
ok_or _ = inr (λ e. cc e)

-- A watchpoint of a length of 1, 2 or 4 within an aligned word and a known access is encoded. The
-- comparator then matches the bytes of the range and no other, is enabled for user mode, linked to
-- the comparator of the context, and has the access in its place. Any other watchpoint is refused.
pub encode_linked_watch_lem :
    (address length access : ℕ)
    → let (result, encoding) = encode_linked_watch address length access in
      (Watchable address length access
        × (result ≡ ok)
        × (has_fields 1 access encoding.control ≡ true)
        × ((b : ℕ) → (matches encoding b ≡ true) ↔ ((address ≤ b) × (b < address + length))))
      ⊎ ((result ≢ ok) × (Watchable address length access → ⊥))
encode_linked_watch_lem address length access =
    elim (ok_or (encode_linked_watch address length access).0) [
      | inr other ↦ inr (other, λ w. other (ap (λ r. r.0) (ok_watch address length access w)))
      | inl e ↦ inl (taken (watch_ok address length access e))
    ]
  where
    taken :
        Watchable address length access
        → let (result, encoding) = encode_linked_watch address length access in
          Watchable address length access
          × (result ≡ ok)
          × (has_fields 1 access encoding.control ≡ true)
          × ((b : ℕ) → (matches encoding b ≡ true) ↔ ((address ≤ b) × (b < address + length)))
    taken (l, a, inside) = rw (ok_watch address length access (l, a, inside)) (
      (l, a, inside),
      refl,
      watch_control-fields (address % 4) length access (omega arith) inside (ground arith),
      λ b. matches_lem address length _ b inside (
          watch_control-selects (address % 4) length access (b % 4) (omega arith) inside
            (ground arith) (omega arith)),
    )

abbrev pub Aligned : ℕ → ℕ → Type 0
Aligned address length = ((length ≡ 2) × (address % 2 ≡ 0)) ⊎ ((length ≡ 4) × (address % 4 ≡ 0))

exec_ok : (address length : ℕ) → (encode_linked_exec address length).0 ≡ ok → Aligned address length
unfolding encode_linked_exec
exec_ok address length h = elim (tests h).0 [
  | inl e ↦ inl (e, subst (λ l. address % l ≡ 0) e ((==_iff _ 0).0 (tests h).1))
  | inr e ↦ inr (e, subst (λ l. address % l ≡ 0) e ((==_iff _ 0).0 (tests h).1))
]
  where
    tests :
        (encode_linked_exec address length).0 ≡ ok
        → ((length ≡ 2) ⊎ (length ≡ 4)) × ((address % length == 0) ≡ true)
    tests h = ground arith

ok_exec :
    (address length : ℕ)
    → Aligned address length
    → encode_linked_exec address length ≡ (
      ok,
      record {
        value = address - address % 4;
        control = exec_control (contiguous_bas (address % 4) length);
      },
    )
unfolding encode_linked_exec contiguous_bas
ok_exec address length (inl (e, m)) = elim (halves m) [
  | inl z ↦ rw (e, m, z) refl
  | inr z ↦ rw (e, m, z) refl
]
  where
    halves : address % 2 ≡ 0 → (address % 4 ≡ 0) ⊎ (address % 4 ≡ 2)
    halves m = omega arith
ok_exec address length (inr (e, m)) = rw (e, m) refl

-- An instruction breakpoint of a length of 2 or 4 to which the address is aligned is encoded. The
-- comparator then matches the bytes of the instruction and no other, is enabled for user mode and
-- linked to the comparator of the context. Any other breakpoint is refused.
pub encode_linked_exec_lem :
    (address length : ℕ)
    → let (result, encoding) = encode_linked_exec address length in
      (Aligned address length
        × (result ≡ ok)
        × (has_fields 1 0 encoding.control ≡ true)
        × ((b : ℕ) → (matches encoding b ≡ true) ↔ ((address ≤ b) × (b < address + length))))
      ⊎ ((result ≢ ok) × (Aligned address length → ⊥))
encode_linked_exec_lem address length = elim (ok_or (encode_linked_exec address length).0) [
  | inr other ↦ inr (other, λ w. other (ap (λ r. r.0) (ok_exec address length w)))
  | inl e ↦ inl (taken (exec_ok address length e) (inside (exec_ok address length e)))
]
  where
    inside : Aligned address length → address % 4 + length ≤ 4
    inside h = ground arith

    taken :
        Aligned address length
        → address % 4 + length ≤ 4
        → let (result, encoding) = encode_linked_exec address length in
          Aligned address length
          × (result ≡ ok)
          × (has_fields 1 0 encoding.control ≡ true)
          × ((b : ℕ) → (matches encoding b ≡ true) ↔ ((address ≤ b) × (b < address + length)))
    taken w fits = rw (ok_exec address length w) (
      w,
      refl,
      exec_control-fields (address % 4) length (omega arith) fits,
      λ b.
          matches_lem address length _ b fits
            (exec_control-selects (address % 4) length (b % 4) (omega arith) fits (omega arith)),
    )

-- The range test is the test of the range's bytes, also where the range ends past the address space.
range_contains_iff :
    (start length address : ℕ)
    → (range_contains start length address ≡ true)
      ↔ ((start ≤ address) × (address < start + length))
unfolding range_contains
range_contains_iff start length address = (λ h. ground arith, λ (u, v). ground arith)

-- A fault status names a debug event exactly if of its bits 10 and 3 to 0 only bit 1 is set.
fsr_is_debug_event_iff :
    (fsr : ℕ) → (fsr_is_debug_event fsr ≡ true) ↔ ((fsr % 16 ≡ 2) × (fsr / 2 ^ 10 % 2 ≡ 0))
unfolding fsr_is_debug_event fsr_status
fsr_is_debug_event_iff fsr = (λ h. ground arith, λ (u, v). ground arith)
