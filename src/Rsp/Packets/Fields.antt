-- ===== src/Rsp/Packets/Fields.antt =====
-- Fields of a packet: scanning to a mark, and the range that an `m` or `M` packet names.
use vita_debugger.Prelude.{
  ℕ, ◌+◌, ◌*◌, ◌^◌, ◌≤◌, ◌≡◌, ◌≢◌, refl, sym, ap, ◌∙◌, false, ◌||◌, List, [], ◌∷◌, ◌++◌, none, some,
  arith, ltb, ◌==◌, length, All, Option-cases, Bool-cases, inl, inr,
}
use vita_debugger.Rsp.Hex.{hex_value}
use vita_debugger.Rsp.Numbers.{parse_u32_hex, parse_u64_hex, parse_hex-hex_field, hex_field, number}
use vita_debugger.Rsp.Packets.{scan_to, is_empty, behind, parse_memory_range}

-- A text without the mark.
abbrev pub Free : ℕ → List ℕ → Type 0
Free mark = All λ c. c ≢ mark

pub scan_to-Free :
    (mark : ℕ) (before rest : List ℕ)
    → Free mark before
    → scan_to mark (before ++ mark ∷ rest) ≡ (before, mark ∷ rest)
unfolding scan_to
scan_to-Free mark [] rest h = ground arith
scan_to-Free mark (c ∷ cs) rest h = ground (arith, scan_to-Free mark cs rest h.1)

-- Where a scan has stopped at a mark, the text is what stands before it, the mark, and the rest.
pub behind-scan_to :
    (mark : ℕ) (text rest : List ℕ)
    → behind (scan_to mark text).1 ≡ some rest
    → text ≡ (scan_to mark text).0 ++ mark ∷ rest
unfolding scan_to behind
behind-scan_to mark [] rest h = ground arith
behind-scan_to mark (c ∷ cs) rest h = elim (Bool-cases (c == mark)) [
  | inl e ↦ ground arith
  | inr e ↦ ground (arith, behind-scan_to mark cs rest)
]

-- No hexadecimal digit is a mark.
number-Free :
    (mark value : ℕ) (text : List ℕ) (v : ℕ)
    → hex_value mark ≡ none
    → number value text ≡ some v
    → Free mark text
unfolding number
number-Free mark value [] v m h = tt
number-Free mark value (c ∷ cs) v m h = elim (Option-cases (hex_value c)) [
  | inl e ↦ absurd (none_some (rw (e, number) at h))
  | inr (nibble, e) ↦ (
    λ same. clash (sym e ∙ ap hex_value same ∙ m),
    number-Free mark (value * 16 + nibble) cs v m (rw (e, number) at h),
  )
]
  where
    none_some : none ≡ some v → ⊥
    none_some q = cc

    clash : {n : ℕ} → some n ≡ none → ⊥
    clash q = cc

hex_field-Free :
    (most mark : ℕ) (text : List ℕ) (v : ℕ)
    → hex_value mark ≡ none
    → hex_field most text ≡ some v
    → Free mark text
hex_field-Free most mark text v m h =
    elim (Bool-cases (length text == 0 || ltb most (length text))) [
      | inl bad ↦ absurd (none_some (rw bad at h))
      | inr good ↦ number-Free mark 0 text v m (rw good at h)
    ]
  where
    none_some : none ≡ some v → ⊥
    none_some q = cc

pub parse_u32_hex-Free :
    (mark : ℕ) (text : List ℕ) (v : ℕ)
    → hex_value mark ≡ none
    → parse_u32_hex text ≡ some v
    → Free mark text
parse_u32_hex-Free mark text v m h =
    hex_field-Free 8 mark text v m (sym (parse_hex-hex_field text).0 ∙ h)

pub parse_u64_hex-Free :
    (mark : ℕ) (text : List ℕ) (v : ℕ)
    → hex_value mark ≡ none
    → parse_u64_hex text ≡ some v
    → Free mark text
parse_u64_hex-Free mark text v m h =
    hex_field-Free 16 mark text v m (sym (parse_hex-hex_field text).2 ∙ h)

pub length-pos : (text : List ℕ) → is_empty text ≡ false → 1 ≤ length text
unfolding is_empty
length-pos [] h = ground arith
length-pos (c ∷ cs) h = omega arith

pub parse_u64_hex-is_empty : (a : List ℕ) (v : ℕ) → parse_u64_hex a ≡ some v → is_empty a ≡ false
unfolding is_empty parse_u64_hex
parse_u64_hex-is_empty [] v h = ground arith
parse_u64_hex-is_empty (c ∷ cs) v h = refl

-- A range that a request may name: both fields parse, within the bound and the address space.
pub record IsRange (address_text length_text : List ℕ) (max address size : ℕ) : Type 0 where
  pub address_read : parse_u32_hex address_text ≡ some address
  pub size_read : parse_u32_hex length_text ≡ some size
  pub bounded : size ≤ max
  pub in_space : address + size ≤ 2 ^ 32

pub parse_memory_range-IsRange :
    (a l : List ℕ) (max : ℕ) (r : ℕ × ℕ)
    → parse_memory_range a l max ≡ some r
    → IsRange a l max r.0 r.1
unfolding parse_memory_range
parse_memory_range-IsRange a l max r h = ground arith

pub comma_unread : hex_value b',' ≡ none
unfolding hex_value
comma_unread = refl

pub colon_unread : hex_value b':' ≡ none
unfolding hex_value
colon_unread = refl

nil_unreadable : parse_u32_hex [] ≡ none
unfolding parse_u32_hex
nil_unreadable = refl

pub parse_u32_hex-is_empty : (a : List ℕ) (v : ℕ) → parse_u32_hex a ≡ some v → is_empty a ≡ false
unfolding is_empty
parse_u32_hex-is_empty [] v h = absurd (none_some (sym nil_unreadable ∙ h))
  where
    none_some : none ≡ some v → ⊥
    none_some q = cc
parse_u32_hex-is_empty (c ∷ cs) v h = refl

pub IsRange-parse_memory_range :
    (a l : List ℕ) (max address size : ℕ)
    → IsRange a l max address size
    → parse_memory_range a l max ≡ some (address, size)
unfolding parse_memory_range
IsRange-parse_memory_range a l max address size r = ground (
  arith,
  parse_u32_hex-is_empty a address r.address_read,
  parse_u32_hex-is_empty l size r.size_read,
)
