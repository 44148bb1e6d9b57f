-- ===== src/Console/Fill.antt =====
-- The loop of `uvdb_console_capture`, and what it leaves.
use vita_debugger.Prelude.{
  ℕ, zero, suc, ◌+◌, ◌-◌, ◌*◌, ◌%◌, ◌^◌, ◌≤◌, ◌<◌, min, ◌≡◌, ◌≢◌, refl, sym, ap, ◌∙◌, subst, true,
  false, not, ◌&&◌, List, [], ◌∷◌, ◌++◌, length, get_or, take, drop, length-take, length-drop,
  length-append, take-append, append_assoc, append-nil, ltb, ◌==◌, arith,
}
use mathlib.Core.Path.{ap₂}
use vita_debugger.Console.{
  Record, Console, Progress, slots, record_max, no_record, chunk_of, next_number, store_record,
  fill,
}
use vita_debugger.Console.Cut.{cut, last_number, cut_step, take_chunk, drop_chunk, chunk_of_lem}
use vita_debugger.Console.Valid.{
  contents, IsValid, IsRecord, slot-IsRecord, bytes-le, held-set, append,
}

-- One pass puts the next record of the cut behind the others.
store_record-IsValid :
    (generation : ℕ) (text : List ℕ) (c : Console)
    → IsValid c
    → c.count < slots
    → (contents (store_record generation text (chunk_of (length text)) c)
        ≡ contents c
          ++ (record {
            generation = generation;
            sequence = next_number c.next_sequence;
            text = take record_max text;
          }
              ∷ []))
      × IsValid (store_record generation text (chunk_of (length text)) c)
unfolding store_record
store_record-IsValid generation text c v lt = (
  held-set stored v lt
      ∙ ap
          (λ t.
            contents c
            ++ (record { generation = generation; sequence = next_number c.next_sequence; text = t }
                ∷ []))
          (take-append (chunk_of (length text)) (take (chunk_of (length text)) text) _ size
            ∙ take_chunk text),
  append stored v lt stored-IsRecord,
)
  where
    stored : Record
    stored = record {
      generation = generation;
      sequence = next_number c.next_sequence;
      size = chunk_of (length text);
      bytes =
          take (chunk_of (length text)) text
          ++ drop (chunk_of (length text)) (get_or c.queue c.tail no_record).bytes;
    }

    size : length (take (chunk_of (length text)) text) ≡ chunk_of (length text)
    size = ground (arith, length-take (chunk_of (length text)) text)

    stored-IsRecord : IsRecord stored
    stored-IsRecord = record {
      size_in = ground arith;
      full = ground (
        arith,
        size,
        length-append (take (chunk_of (length text)) text)
            (drop (chunk_of (length text)) (get_or c.queue c.tail no_record).bytes),
        length-drop (chunk_of (length text)) (get_or c.queue c.tail no_record).bytes,
        (slot-IsRecord v c.tail).full,
      );
    }

-- A pass of the loop, by its test.
fill_stop :
    (fuel generation : ℕ) (cursor : List ℕ) (remaining accepted records : ℕ) (c : Console)
    → (not (remaining == 0) && ltb c.count slots) ≡ false
    → fill fuel generation cursor remaining accepted records c
      ≡ record { remaining = remaining; accepted = accepted; records = records; console = c }
unfolding fill
fill_stop zero generation cursor remaining accepted records c e = refl
fill_stop (suc fuel) generation cursor remaining accepted records c e = rw e refl

fill_pass :
    (fuel generation : ℕ) (cursor : List ℕ) (remaining accepted records : ℕ) (c : Console)
    → (not (remaining == 0) && ltb c.count slots) ≡ true
    → fill (suc fuel) generation cursor remaining accepted records c
      ≡ fill fuel generation
          (drop (chunk_of remaining) cursor)
          (remaining - chunk_of remaining)
          (accepted + chunk_of remaining)
          (records + 1)
          (store_record generation cursor (chunk_of remaining) c)
unfolding fill
fill_pass fuel generation cursor remaining accepted records c e = rw e refl

-- What the loop leaves of the bytes `text`, when it starts with room for so many records.
pub record IsFilled (room generation : ℕ) (text : List ℕ) (accepted records : ℕ) (c : Console)
    (p : Progress) : Type 0 where
  pub held_at : contents p.console ≡ contents c ++ cut room generation c.next_sequence text
  pub valid : IsValid p.console
  pub number_at :
      p.console.next_sequence
      ≡ last_number c.next_sequence (cut room generation c.next_sequence text)
  pub accepted_at : p.accepted ≡ accepted + min (length text) (record_max * room)
  pub remaining_at : p.remaining + p.accepted ≡ length text + accepted
  pub accepted_in : p.accepted + record_max * records ≤ accepted + record_max * p.records
  pub bytes_at : p.console.bytes + accepted ≡ c.bytes + p.accepted
  pub steady :
      (p.console.session ≡ c.session)
      × (p.console.ever_opened ≡ c.ever_opened)
      × (p.console.queue_lock ≡ c.queue_lock)
      × (p.console.lifecycle_lock ≡ c.lifecycle_lock)
      × (p.console.stats ≡ c.stats)

fill_none :
    (room generation : ℕ) (text : List ℕ) (accepted records : ℕ) (c : Console)
    → IsValid c
    → cut room generation c.next_sequence text ≡ []
    → min (length text) (record_max * room) ≡ 0
    → IsFilled room generation text accepted records c
        (record { remaining = length text; accepted = accepted; records = records; console = c })
fill_none room generation text accepted records c v nothing none_fits = record {
  held_at = sym (append-nil (contents c)) ∙ ap (◌++◌ (contents c)) (sym nothing);
  valid = v;
  number_at = ap (last_number c.next_sequence) (sym nothing);
  accepted_at = omega (arith, none_fits);
  remaining_at = refl;
  accepted_in = omega arith;
  bytes_at = refl;
  steady = (refl, refl, refl, refl, refl);
}

-- The console after a pass on all that is left.
abbrev stored : ℕ → List ℕ → Console → Console
stored generation text c = store_record generation text (chunk_of (length text)) c

stored-Steady :
    (generation : ℕ) (text : List ℕ) (c : Console)
    → let c' = stored generation text c in
      (c'.session ≡ c.session)
      × (c'.ever_opened ≡ c.ever_opened)
      × (c'.queue_lock ≡ c.queue_lock)
      × (c'.lifecycle_lock ≡ c.lifecycle_lock)
      × (c'.stats ≡ c.stats)
      × (c'.next_sequence ≡ next_number c.next_sequence)
      × (c'.count ≡ c.count + 1)
      × (c'.bytes ≡ (c.bytes + chunk_of (length text)) % 2 ^ 32)
unfolding store_record
stored-Steady generation text c = (refl, refl, refl, refl, refl, refl, refl, refl)

-- A pass, and the rest of the loop on the bytes that it leaves.
fill_more :
    (room generation : ℕ) (text : List ℕ) (accepted records : ℕ) (c : Console) (p : Progress)
    → IsValid c
    → c.count < slots
    → length text ≢ 0
    → IsFilled room generation
        (drop record_max text)
        (accepted + chunk_of (length text))
        (records + 1)
        (stored generation text c)
        p
    → IsFilled (suc room) generation text accepted records c p
fill_more room generation text accepted records c p v lt some_left f =
    let (a, b, d, l, m, number, one, more) = stored-Steady generation text c in
    let (a', b', d', l', m') = f.steady in
    let (put, v') = store_record-IsValid generation text c v lt in
    record {
      held_at =
          f.held_at
          ∙ ap₂ ◌++◌ put (ap (λ k. cut room generation k (drop record_max text)) number)
          ∙ append_assoc (contents c) _ _
          ∙ ap (◌++◌ (contents c)) (sym (cut_step room generation c.next_sequence text some_left));
      valid = f.valid;
      number_at =
          f.number_at
          ∙ ap (λ k. last_number k (cut room generation k (drop record_max text))) number
          ∙ ap (last_number c.next_sequence)
              (sym (cut_step room generation c.next_sequence text some_left));
      accepted_at = omega (
        arith,
        f.accepted_at,
        length-drop record_max text,
        chunk_of_lem (length text),
        some_left,
      );
      remaining_at =
          omega (arith, f.remaining_at, length-drop record_max text, chunk_of_lem (length text));
      accepted_in = omega (arith, f.accepted_in, chunk_of_lem (length text));
      bytes_at = omega (arith, f.bytes_at, more, bytes-le v, chunk_of_lem (length text));
      steady = (a' ∙ a, b' ∙ b, d' ∙ d, l' ∙ l, m' ∙ m);
    }

pub fill-IsFilled :
    (fuel room generation : ℕ) (text : List ℕ) (accepted records : ℕ) (c : Console)
    → room ≤ fuel
    → c.count + room ≡ slots
    → IsValid c
    → IsFilled room generation text accepted records c
        (fill fuel generation text (length text) accepted records c)
fill-IsFilled fuel zero generation text accepted records c h e v =
    rw (fill_stop fuel generation text (length text) accepted records c (ground arith))
      (fill_none zero generation text accepted records c v refl (omega arith))
fill-IsFilled zero (suc room) generation text accepted records c h e v = absurd (omega arith)
fill-IsFilled (suc fuel) (suc room) generation [] accepted records c h e v =
    rw (fill_stop (suc fuel) generation [] 0 accepted records c refl)
      (fill_none (suc room) generation [] accepted records c v refl (omega arith))
fill-IsFilled (suc fuel) (suc room) generation (x ∷ xs) accepted records c h e v =
    let text = x ∷ xs in
    let chunk = chunk_of (length text) in
    rw (fill_pass fuel generation text (length text) accepted records c (ground arith)) (
      fill_more room generation text accepted records c _ v (omega arith) (omega arith) (
        subst
          (λ n.
            IsFilled room generation (drop record_max text) (accepted + chunk) (records + 1)
              (stored generation text c)
              (fill fuel generation (drop chunk text) n (accepted + chunk) (records + 1)
                (stored generation text c)))
          (length-drop chunk text)
          (rw (drop_chunk text) (
            fill-IsFilled fuel room generation (drop record_max text) (accepted + chunk)
              (records + 1) (stored generation text c) (omega arith)
              (omega (arith, stored-Steady generation text c))
              (store_record-IsValid generation text c v (omega arith)).1))))
