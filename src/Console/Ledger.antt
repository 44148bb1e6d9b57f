-- ===== src/Console/Ledger.antt =====
-- The byte counters of src/uvdb_console.c: every byte that is offered is sent, in the queue or
-- counted as dropped.
use vita_debugger.Prelude.{
  ℕ, ◌+◌, ◌-◌, ◌%◌, ◌^◌, ◌≤◌, ◌≡◌, ◌≢◌, refl, ap, ◌∙◌, List, length, get_or, arith,
}
use vita_debugger.Console.{
  Console, Tally, Progress, add, add_both, note_drop, subtract, slots, no_record, head_record,
  drop_head_as_stale, purge_locked, purge_other_generations_locked, publish_depth, generation_of,
}
use vita_debugger.Console.Calls.{settle_capture, capture_locked, take_head}
use vita_debugger.Console.Valid.{total, IsValid, advance, bytes-le, length-piece, slot-IsRecord}
use vita_debugger.Console.Contents.{
  purge_from-keeps, purge_other_from-keeps, purge_other_generations_locked-IsValid,
}
use vita_debugger.Console.Fill.{fill-IsFilled}

-- The bytes that the counters and the queue account for, in the 32 bits of a counter.
abbrev pub accounted : Console → ℕ
accounted c =
    (c.stats.sent.bytes + c.bytes + c.stats.dropped_disconnected.bytes
      + c.stats.dropped_contention.bytes + c.stats.dropped_full.bytes + c.stats.dropped_stale.bytes)
    % 2 ^ 32

pub bytes-note_drop : (t : Tally) (n : ℕ) → (note_drop t n).bytes % 2 ^ 32 ≡ (t.bytes + n) % 2 ^ 32
unfolding note_drop add_both add
bytes-note_drop t n = ground arith

bytes-add_both : (t : Tally) (m n : ℕ) → (add_both t m n).bytes % 2 ^ 32 ≡ (t.bytes + n) % 2 ^ 32
unfolding add_both add
bytes-add_both t m n = omega arith

size-le : (c : Console) → IsValid c → c.count ≢ 0 → (head_record c).size ≤ c.bytes
unfolding head_record
size-le c v p = omega (
  arith,
  v.bytes_at,
  ap total (advance v p).0,
  length-piece (get_or c.queue c.head no_record) (slot-IsRecord v c.head),
)

-- A record that is dropped goes over from the queue to the counter.
accounted-drop_head_as_stale :
    (n : ℕ) (c : Console)
    → IsValid c
    → c.count ≢ 0
    → accounted c ≡ n
    → accounted (drop_head_as_stale c) ≡ n
unfolding drop_head_as_stale subtract
accounted-drop_head_as_stale n c v p e = omega (
  arith,
  e,
  size-le c v p,
  bytes-le v,
  bytes-add_both c.stats.dropped_stale 1 (head_record c).size,
)

pub accounted-purge_locked : (c : Console) → IsValid c → accounted (purge_locked c) ≡ accounted c
unfolding purge_locked publish_depth
accounted-purge_locked c v =
    purge_from-keeps (λ c'. accounted c' ≡ accounted c) (accounted-drop_head_as_stale (accounted c))
      c.count c v refl

pub accounted-purge_other_generations_locked :
    (generation : ℕ) (c : Console)
    → IsValid c
    → accounted (purge_other_generations_locked generation c) ≡ accounted c
unfolding purge_other_generations_locked publish_depth
accounted-purge_other_generations_locked generation c v =
    purge_other_from-keeps (λ c'. accounted c' ≡ accounted c)
      (accounted-drop_head_as_stale (accounted c)) c.count generation c v refl

pub accounted-take_head :
    (c : Console) → IsValid c → c.count ≢ 0 → accounted (take_head c) ≡ accounted c
unfolding take_head subtract publish_depth
accounted-take_head c v p =
    omega (arith, size-le c v p, bytes-le v, bytes-add_both c.stats.sent 1 (head_record c).size)

-- What the loop took is in the queue, and what it left is counted as dropped.
accounted-settle_capture :
    (p : Progress) (c : Console) (size : ℕ)
    → p.console.bytes ≡ c.bytes + p.accepted
    → p.remaining + p.accepted ≡ size
    → p.console.stats ≡ c.stats
    → accounted (settle_capture p).1 ≡ (accounted c + size) % 2 ^ 32
unfolding settle_capture publish_depth
accounted-settle_capture p c size more all same =
    rw (same, more) (omega (arith, all, bytes-note_drop c.stats.dropped_full p.remaining))

pub accounted-capture_locked :
    (text : List ℕ) (c : Console)
    → IsValid c
    → accounted (capture_locked text (length text) c).1 ≡ (accounted c + length text) % 2 ^ 32
unfolding capture_locked
accounted-capture_locked text c v =
    let generation = generation_of c.session in
    let c' = purge_other_generations_locked generation c in
    let v' = (purge_other_generations_locked-IsValid generation c v).1 in
    let f =
      fill-IsFilled slots (slots - c'.count) generation text 0 0 c' (omega arith)
        (omega (arith, v'.count_in)) v' in
    accounted-settle_capture _ c' (length text) (omega (arith, f.bytes_at))
      (omega (arith, f.remaining_at)) f.steady.4
    ∙ ap (λ n. (n + length text) % 2 ^ 32) (accounted-purge_other_generations_locked generation c v)
