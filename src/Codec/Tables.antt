-- ===== src/Codec/Tables.antt =====
-- The control words of kernel/src/armv7_debug_codec.c, bit by bit.
use vita_debugger.Prelude.{
  ℕ, zero, suc, ◌+◌, ◌/◌, ◌%◌, ◌^◌, ◌<◌, ◌≡◌, ◌≤◌, refl, sym, Bool, true, false, not, ◌&&◌, ◌||◌,
  ltb, leb, ◌==◌, ==_iff, Bool-cases, inl, inr, arith, Bool-cases,
}
use vita_debugger.Codec.{contiguous_bas, exec_control, watch_control}

-- A test that each row of a table passes, from its last row down.
every_row : ℕ → (ℕ → Bool) → Bool
every_row zero test = true
every_row (suc rows) test = every_row rows test && test rows

row_passes :
    (rows : ℕ) (test : ℕ → Bool) (row : ℕ)
    → row < rows
    → every_row rows test ≡ true
    → test row ≡ true
unfolding every_row
row_passes zero test row inside passed = absurd (omega arith)
row_passes (suc rows) test row inside passed = elim (Bool-cases (row == rows)) [
  | inl last ↦ rw ((==_iff row rows).0 last) (ground arith)
  | inr other ↦ row_passes rows test row (ground arith) (ground arith)
]

abbrev same : Bool → Bool → Bool
same true b = b
same false b = not b

-- The byte address select bit of a byte of the word.
abbrev pub selects : ℕ → ℕ → Bool
selects control k = control / 2 ^ 5 / 2 ^ k % 2 == 1

abbrev within : ℕ → ℕ → ℕ → Bool
within o l k = leb o k && ltb k (o + l)

watch_table :
    every_row 4 (λ o. every_row 5 (λ l. every_row 4 (λ a. every_row 4 (λ k.
      ltb 4 (o + l) || same (selects (watch_control (contiguous_bas o l) a) k) (within o l k)))))
    ≡ true
unfolding every_row watch_control contiguous_bas
watch_table = refl

same_sound : (a b : Bool) → same a b ≡ true → a ≡ b
same_sound true b h = sym h
same_sound false true h = absurd (cc h)
same_sound false false h = refl

or_right : (a b : Bool) → (a || b) ≡ true → a ≡ false → b ≡ true
or_right a b h e = ground arith

pub watch_control-selects :
    (o l a k : ℕ)
    → o < 4
    → o + l ≤ 4
    → a < 4
    → k < 4
    → selects (watch_control (contiguous_bas o l) a) k ≡ (leb o k && ltb k (o + l))
watch_control-selects o l a k ho hl ha hk = same_sound _ _ (
    or_right (ltb 4 (o + l)) _
      (row_passes 4 _ k hk
        (row_passes 4 _ a ha (row_passes 5 _ l (omega arith) (row_passes 4 _ o ho watch_table))))
      (ground arith))

-- The other fields of a control word: enabled, for user mode, linked to the comparator of the
-- context, with the access and the type in their places.
abbrev pub has_fields : ℕ → ℕ → ℕ → Bool
has_fields kind access control =
    control % 2 == 1
    && (control / 2 % 4 == 2
        && (control / 2 ^ 3 % 4 == access
            && (control / 2 ^ 16 % 2 ^ 4 == 5 && control / 2 ^ 20 == kind)))

watch_fields_table :
    every_row 4 (λ o. every_row 5 (λ l.
      every_row 4 (λ a. ltb 4 (o + l) || has_fields 1 a (watch_control (contiguous_bas o l) a))))
    ≡ true
unfolding every_row watch_control contiguous_bas
watch_fields_table = refl

pub watch_control-fields :
    (o l a : ℕ)
    → o < 4
    → o + l ≤ 4
    → a < 4
    → has_fields 1 a (watch_control (contiguous_bas o l) a) ≡ true
watch_control-fields o l a ho hl ha =
    or_right (ltb 4 (o + l)) _
      (row_passes 4 _ a ha
        (row_passes 5 _ l (omega arith) (row_passes 4 _ o ho watch_fields_table)))
      (ground arith)

exec_table :
    every_row 4 (λ o. every_row 5 (λ l. every_row 4 (λ k.
      ltb 4 (o + l)
      || (has_fields 1 0 (exec_control (contiguous_bas o l))
          && same (selects (exec_control (contiguous_bas o l)) k) (within o l k)))))
    ≡ true
unfolding every_row exec_control contiguous_bas
exec_table = refl

exec_control-row :
    (o l k : ℕ)
    → o < 4
    → o + l ≤ 4
    → k < 4
    → (has_fields 1 0 (exec_control (contiguous_bas o l))
        && same (selects (exec_control (contiguous_bas o l)) k) (within o l k))
      ≡ true
exec_control-row o l k ho hl hk =
    or_right (ltb 4 (o + l)) _
      (row_passes 4 _ k hk (row_passes 5 _ l (omega arith) (row_passes 4 _ o ho exec_table)))
      (ground arith)

and_left : (a b : Bool) → (a && b) ≡ true → a ≡ true
and_left a b h = ground arith

and_right : (a b : Bool) → (a && b) ≡ true → b ≡ true
and_right a b h = ground arith

pub exec_control-selects :
    (o l k : ℕ)
    → o < 4
    → o + l ≤ 4
    → k < 4
    → selects (exec_control (contiguous_bas o l)) k ≡ (leb o k && ltb k (o + l))
exec_control-selects o l k ho hl hk =
    same_sound _ _ (and_right _ _ (exec_control-row o l k ho hl hk))

pub exec_control-fields :
    (o l : ℕ) → o < 4 → o + l ≤ 4 → has_fields 1 0 (exec_control (contiguous_bas o l)) ≡ true
exec_control-fields o l ho hl = and_left _ _ (exec_control-row o l 0 ho hl (omega arith))
