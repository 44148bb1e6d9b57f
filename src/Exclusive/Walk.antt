-- ===== src/Exclusive/Walk.antt =====
-- Straight-line walks over code, for either instruction set of src/uvdb_exclusive_step.c: from an
-- instruction on to the first that ends the sequence, over none that may leave it.
use vita_debugger.Prelude.{
  ℕ, zero, suc, ◌+◌, ◌-◌, ◌≤◌, ◌<◌, ◌≡◌, ◌↔◌, refl, ap, subst, inl, inr, ◌⊎◌, Bool, not, true,
  false, Option, none, some, if◌then◌else◌, Bool-cases, Option-cases, arith, ltb,
}
use vita_debugger.Exclusive.{add_u32, uint32_max}

-- An instruction set, with what one scan looks for: how an instruction is read where so many bytes
-- are left, its size, and whether the sequence ends with it or goes on behind it.
pub record Code : Type 1 where
  pub Item : Type 0
  pub fetch : ℕ → ℕ → Option Item
  pub size : Item → ℕ
  pub ends : Item → Bool
  pub goes_on : Item → Bool

-- Where a walk ends: the address behind it, its instructions and its bytes.
pub record End : Type 0 where
  pub address : ℕ
  pub instructions : ℕ
  pub bytes : ℕ

pub add_u32-cases :
    (a b : ℕ)
    → b ≤ uint32_max
    → ((a + b ≤ uint32_max) × (add_u32 a b ≡ some (a + b)))
      ⊎ ((uint32_max < a + b) × (add_u32 a b ≡ none))
unfolding add_u32
add_u32-cases a b h = elim (Bool-cases (ltb (uint32_max - b) a)) [
  | inl e ↦ inr (ground arith, rw e refl)
  | inr e ↦ inl (ground arith, rw e refl)
]

module _ (code : Code) (limit : ℕ) where
  -- What is read has a size, and lies within the bytes that are left.
  abbrev pub IsCode : Type 0
  IsCode =
      (pc left : ℕ) (i : code.Item)
      → code.fetch pc left ≡ some i
      → (0 < code.size i) × (code.size i ≤ 4) × (code.size i ≤ left)

  -- From an address, with so many instructions and bytes behind.
  pub data Line : ℕ → ℕ → ℕ → End → Type 0 where
    stop :
        (pc instructions bytes : ℕ) (i : code.Item)
        → code.fetch pc (limit - bytes) ≡ some i
        → code.ends i ≡ true
        → pc + code.size i ≤ uint32_max
        → Line pc instructions bytes (record {
          address = pc + code.size i;
          instructions = instructions + 1;
          bytes = bytes + code.size i;
        })
    on :
        (pc instructions bytes : ℕ) (i : code.Item) (e : End)
        → code.fetch pc (limit - bytes) ≡ some i
        → code.ends i ≡ false
        → code.goes_on i ≡ true
        → pc + code.size i ≤ uint32_max
        → Line (pc + code.size i) (instructions + 1) (bytes + code.size i) e
        → Line pc instructions bytes e

  -- The walk as a function, at most so many instructions long.
  unfoldable pub walk : ℕ → ℕ → ℕ → ℕ → Option End
  walk zero pc instructions bytes = none
  walk (suc fuel) pc instructions bytes = elim (code.fetch pc (limit - bytes)) [
    | none ↦ none
    | some i ↦
        if code.ends i
        then elim (add_u32 pc (code.size i)) [
          | none ↦ none
          | some next ↦ some (record {
            address = next;
            instructions = instructions + 1;
            bytes = bytes + code.size i;
          })
        ]
        else if not (code.goes_on i)
        then none
        else elim (add_u32 pc (code.size i)) [
          | none ↦ none
          | some next ↦ walk fuel (pc + code.size i) (instructions + 1) (bytes + code.size i)
        ]
  ]

  none-some : {e : End} → none ≡ some e → ⊥
  none-some p = cc

  some_inj : {d e : End} → some d ≡ some e → d ≡ e
  some_inj p = cc

  walk_sound :
      (fuel pc instructions bytes : ℕ) (e : End)
      → IsCode
      → walk fuel pc instructions bytes ≡ some e
      → Line pc instructions bytes e × (e.instructions ≤ instructions + fuel)
  unfolding walk
  walk_sound zero pc instructions bytes e fits h = absurd (none-some h)
  walk_sound (suc fuel) pc instructions bytes e fits h =
      elim (Option-cases (code.fetch pc (limit - bytes))) [
        | inl f ↦ absurd (none-some (rw (walk, f) at h))
        | inr (i, f) ↦ elim (Bool-cases (code.ends i)) [
          | inl s ↦
              elim (add_u32-cases pc (code.size i) (omega (arith, fits pc (limit - bytes) i f))) [
                | inl (le, a) ↦
                    let h' = some_inj (rw (walk, f, s, a) at h) in
                    (
                      subst (Line pc instructions bytes) h' (stop pc instructions bytes i f s le),
                      omega (arith, ap (λ x. x.instructions) h'),
                    )
                | inr (lt, a) ↦ absurd (none-some (rw (walk, f, s, a) at h))
              ]
          | inr s ↦ elim (Bool-cases (code.goes_on i)) [
            | inl g ↦
                elim (add_u32-cases pc (code.size i) (omega (arith, fits pc (limit - bytes) i f))) [
                  | inl (le, a) ↦
                      let (line, bound) =
                        walk_sound fuel (pc + code.size i) (instructions + 1) (bytes + code.size i)
                          e fits (rw (walk, f, s, g, a) at h) in
                      (on pc instructions bytes i e f s g le line, omega (arith, bound))
                  | inr (lt, a) ↦ absurd (none-some (rw (walk, f, s, g, a) at h))
                ]
            | inr g ↦ absurd (none-some (rw (walk, f, s, g) at h))
          ]
        ]
      ]

  pub Line-later :
      {pc instructions bytes : ℕ} {e : End}
      → Line pc instructions bytes e
      → instructions < e.instructions
  Line-later (stop pc instructions bytes i f s le) = omega arith
  Line-later (on pc instructions bytes i e f s g le line) = omega (arith, Line-later line)

  walk_complete :
      (fuel pc instructions bytes : ℕ) (e : End)
      → IsCode
      → Line pc instructions bytes e
      → e.instructions ≤ instructions + fuel
      → walk fuel pc instructions bytes ≡ some e
  unfolding walk
  walk_complete zero _ _ _ _ fits (stop pc instructions bytes i f s le) h =
      absurd (omega (arith, h))
  walk_complete (suc fuel) _ _ _ _ fits (stop pc instructions bytes i f s le) h =
      elim (add_u32-cases pc (code.size i) (omega (arith, fits pc (limit - bytes) i f))) [
        | inl (le', a) ↦ rw (walk, f, s, a) refl
        | inr (lt, a) ↦ absurd (omega (arith, le, lt))
      ]
  walk_complete zero _ _ _ _ fits (on pc instructions bytes i e f s g le line) h =
      absurd (omega (arith, h, Line-later line))
  walk_complete (suc fuel) _ _ _ _ fits (on pc instructions bytes i e f s g le line) h =
      elim (add_u32-cases pc (code.size i) (omega (arith, fits pc (limit - bytes) i f))) [
        | inl (le', a) ↦
            rw (walk, f, s, g, a)
              (walk_complete fuel (pc + code.size i) (instructions + 1) (bytes + code.size i) e fits
                line (omega (arith, h)))
        | inr (lt, a) ↦ absurd (omega (arith, le, lt))
      ]

  -- The function finds the walks that are short enough, and nothing else.
  pub walk_iff :
      (fuel pc instructions bytes : ℕ) (e : End)
      → IsCode
      → (walk fuel pc instructions bytes ≡ some e)
        ↔ (Line pc instructions bytes e × (e.instructions ≤ instructions + fuel))
  walk_iff fuel pc instructions bytes e fits = (
    walk_sound fuel pc instructions bytes e fits,
    λ (line, h). walk_complete fuel pc instructions bytes e fits line h,
  )

  -- A walk ends behind its bytes, in the address space and within the limit.
  pub Line-bounds :
      {pc instructions bytes : ℕ} {e : End}
      → IsCode
      → Line pc instructions bytes e
      → bytes ≤ limit
      → (e.address + bytes ≡ pc + e.bytes)
        × (bytes < e.bytes)
        × (e.bytes ≤ limit)
        × (e.address ≤ uint32_max)
        × (instructions < e.instructions)
  Line-bounds fits (stop pc instructions bytes i f s le) h =
      omega (arith, fits pc (limit - bytes) i f, le, h)
  Line-bounds fits (on pc instructions bytes i e f s g le line) h = omega (
    arith,
    fits pc (limit - bytes) i f,
    h,
    Line-bounds fits line (omega (arith, h, fits pc (limit - bytes) i f)),
  )
