-- ===== src/Console/Cut.antt =====
-- How `uvdb_console_capture` cuts bytes into records.
use vita_debugger.Prelude.{
  ℕ, zero, suc, ◌*◌, min, ◌≡◌, ◌≢◌, refl, sym, ap, ◌∙◌, inl, inr, List, [], ◌∷◌, ◌++◌, length, take,
  drop, take-all, take-append-take-drop, drop-all, ltb, Bool-cases, arith,
}
use vita_debugger.Console.{record_max, chunk_of, next_number}
use vita_debugger.Console.Valid.{Piece}

-- The records that bytes are cut into, at most so many, behind a sequence number.
abbrev pub cut : ℕ → ℕ → ℕ → List ℕ → List Piece
cut zero generation number text = []
cut (suc room) generation number [] = []
cut (suc room) generation number (x ∷ xs) =
    record {
      generation = generation;
      sequence = next_number number;
      text = take record_max (x ∷ xs);
    }
    ∷ cut room generation (next_number number) (drop record_max (x ∷ xs))

-- The sequence number that the last of the records has.
abbrev pub last_number : ℕ → List Piece → ℕ
last_number number [] = number
last_number number (p ∷ ps) = last_number p.sequence ps

abbrev pub texts : List Piece → List ℕ
texts [] = []
texts (p ∷ ps) = p.text ++ texts ps

cut_nil : (room generation number : ℕ) → cut room generation number [] ≡ []
cut_nil zero generation number = refl
cut_nil (suc room) generation number = refl

pub cut_step :
    (room generation number : ℕ) (text : List ℕ)
    → length text ≢ 0
    → cut (suc room) generation number text
      ≡ record {
        generation = generation;
        sequence = next_number number;
        text = take record_max text;
      }
        ∷ cut room generation (next_number number) (drop record_max text)
cut_step room generation number [] p = absurd (p refl)
cut_step room generation number (x ∷ xs) p = refl

-- Nothing is lost between the records.
pub texts-cut :
    (room generation number : ℕ) (text : List ℕ)
    → texts (cut room generation number text) ≡ take (record_max * room) text
texts-cut zero generation number text = refl
texts-cut (suc room) generation number [] = sym (take-all (record_max * suc room) [] (omega arith))
texts-cut (suc room) generation number (x ∷ xs) =
    ap (◌++◌ (take record_max (x ∷ xs)))
      (texts-cut room generation (next_number number) (drop record_max (x ∷ xs)))
    ∙ take-append-take-drop record_max (record_max * room) (record_max * suc room) (x ∷ xs)
        (omega arith)

pub chunk_of_lem : (n : ℕ) → chunk_of n ≡ min n record_max
chunk_of_lem n = ground arith

-- A chunk is cut at the end of a record, or of the bytes.
pub take_chunk : (text : List ℕ) → take (chunk_of (length text)) text ≡ take record_max text
take_chunk text = elim (Bool-cases (ltb record_max (length text))) [
  | inl e ↦ rw e refl
  | inr e ↦
      rw e
        (take-all (length text) text (omega arith) ∙ sym (take-all record_max text (ground arith)))
]

pub drop_chunk : (text : List ℕ) → drop (chunk_of (length text)) text ≡ drop record_max text
drop_chunk text = elim (Bool-cases (ltb record_max (length text))) [
  | inl e ↦ rw e refl
  | inr e ↦
      rw e
        (drop-all (length text) text (omega arith) ∙ sym (drop-all record_max text (ground arith)))
]
