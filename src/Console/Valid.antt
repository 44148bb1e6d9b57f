-- ===== src/Console/Valid.antt =====
-- The ring of records in src/uvdb_console.c: what it holds, and when its variables agree.
use vita_debugger.Prelude.{
  ℕ, zero, suc, ◌+◌, ◌-◌, ◌*◌, ◌%◌, ◌^◌, ◌≤◌, ◌<◌, ◌≡◌, ◌≢◌, refl, ap, ◌∙◌, sym, List, [], ◌∷◌,
  ◌++◌, length, get_or, set, take, length-take, length-set, get_or-set_self, get_or-set_other,
  get_or-All, set-All, All, arith,
}
use mathlib.Core.Path.{ap₂}
use vita_debugger.Console.{Record, Console, slots, record_max, no_record, subtract}
use vita_debugger.Console.Window.{window, window-pop, window-snoc, window-same}

-- A record without the bytes of its array that it does not use.
pub record Piece : Type 0 where
  pub generation : ℕ
  pub sequence : ℕ
  pub text : List ℕ

abbrev pub piece : Record → Piece
piece r = record { generation = r.generation; sequence = r.sequence; text = take r.size r.bytes }

abbrev pub total : List Piece → ℕ
total [] = 0
total (p ∷ ps) = length p.text + total ps

abbrev pub slot : List Record → ℕ → Piece
slot queue i = piece (get_or queue i no_record)

abbrev pub held : List Record → ℕ → ℕ → List Piece
held queue head count = window (slot queue) head count

-- What the queue holds, from the oldest on.
abbrev pub contents : Console → List Piece
contents c = held c.queue c.head c.count

pub record IsRecord (r : Record) : Type 0 where
  pub size_in : r.size ≤ record_max
  pub full : length r.bytes ≡ record_max

-- The ring's variables.
pub record IsRing (queue : List Record) (head tail count bytes : ℕ) : Type 0 where
  pub storage : length queue ≡ slots
  pub records : All IsRecord queue
  pub head_in : head < slots
  pub count_in : count ≤ slots
  pub tail_at : tail ≡ (head + count) % slots
  pub bytes_at : bytes ≡ total (held queue head count)

abbrev pub IsValid : Console → Type 0
IsValid c = IsRing c.queue c.head c.tail c.count c.bytes

pub no_record-IsRecord : IsRecord no_record
no_record-IsRecord = record { size_in = omega arith; full = refl }

pub length-piece : (r : Record) → IsRecord r → length (piece r).text ≡ r.size
length-piece r v = omega (arith, length-take r.size r.bytes, v.size_in, v.full)

total-append : (ps qs : List Piece) → total (ps ++ qs) ≡ total ps + total qs
total-append [] qs = omega arith
total-append (p ∷ ps) qs = omega (arith, total-append ps qs)

total-window :
    (queue : List Record) (h n : ℕ)
    → ((i : ℕ) → IsRecord (get_or queue i no_record))
    → total (held queue h n) ≤ record_max * n
total-window queue h zero all = omega arith
total-window queue h (suc n) all = omega (
  arith,
  total-window queue ((h + 1) % slots) n all,
  length-piece (get_or queue h no_record) (all h),
  (all h).size_in,
)

module _ {queue : List Record} {head tail count bytes : ℕ} where
  pub slot-IsRecord :
      IsRing queue head tail count bytes → (i : ℕ) → IsRecord (get_or queue i no_record)
  slot-IsRecord v i = get_or-All IsRecord queue i no_record v.records no_record-IsRecord

  -- The count of bytes is far from its wrap-around.
  pub bytes-le : IsRing queue head tail count bytes → bytes ≤ record_max * slots
  bytes-le v =
      omega (arith, total-window queue head count (slot-IsRecord v), v.count_in, v.bytes_at)

  -- The oldest record is taken off.
  pub advance :
      IsRing queue head tail count bytes
      → count ≢ 0
      → (held queue head count
          ≡ piece (get_or queue head no_record) ∷ held queue ((head + 1) % slots) (count - 1))
        × IsRing queue
            ((head + 1) % slots)
            tail
            (count - 1)
            (subtract bytes (get_or queue head no_record).size)
  unfolding subtract
  advance v p = (
    window-pop (slot queue) head count p,
    record {
      storage = v.storage;
      records = v.records;
      head_in = omega arith;
      count_in = omega (arith, v.count_in);
      tail_at = omega (arith, v.tail_at, v.head_in, v.count_in);
      bytes_at = omega (
        arith,
        bytes-le v,
        v.bytes_at,
        ap total (window-pop (slot queue) head count p),
        length-piece (get_or queue head no_record) (slot-IsRecord v head),
        (slot-IsRecord v head).size_in,
      );
    },
  )

  -- A record is put behind the newest one.
  pub held-set :
      (r : Record)
      → IsRing queue head tail count bytes
      → count < slots
      → held (set queue tail r) head (count + 1) ≡ held queue head count ++ (piece r ∷ [])
  held-set r v lt =
      ap (window (slot (set queue tail r)) head) {x = count + 1} {y = suc count} (omega arith)
      ∙ window-snoc (slot (set queue tail r)) head count v.head_in
      ∙ ap₂ ◌++◌
          (window-same (slot (set queue tail r)) (slot queue) head count v.head_in (λ k lt'.
            ap piece (
              get_or-set_other queue tail ((head + k) % slots) r no_record
                (λ e. omega (arith, e, lt', lt, v.head_in, v.tail_at)))))
          (ap (λ x. piece x ∷ [])
            (ap (λ i. get_or (set queue tail r) i no_record) (sym v.tail_at)
              ∙ get_or-set_self queue tail r no_record
                  (omega (arith, v.storage, v.tail_at, v.head_in))))

  pub append :
      (r : Record)
      → IsRing queue head tail count bytes
      → count < slots
      → IsRecord r
      → IsRing (set queue tail r) head ((tail + 1) % slots) (count + 1) ((bytes + r.size) % 2 ^ 32)
  append r v lt q = record {
    storage = length-set queue tail r ∙ v.storage;
    records = set-All IsRecord queue tail r v.records q;
    head_in = v.head_in;
    count_in = omega (arith, lt);
    tail_at = omega (arith, v.tail_at, v.head_in, v.count_in);
    bytes_at = omega (
      arith,
      bytes-le v,
      v.bytes_at,
      ap total (held-set r v lt),
      total-append (held queue head count) (piece r ∷ []),
      length-piece r q,
      q.size_in,
    );
  }
