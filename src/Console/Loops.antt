-- ===== src/Console/Loops.antt =====
-- The loops of src/uvdb_console.c end: `while` as the finite runs of its test and body, and the runs
-- of the loops of `console_purge_locked`, `console_purge_other_generations_locked` and
-- `uvdb_console_capture`.
use vita_debugger.Prelude.{
  ℕ, zero, suc, ◌+◌, ◌-◌, ◌≤◌, ◌<◌, ◌≡◌, ◌≢◌, refl, not, ◌&&◌, ◌||◌, List, drop, arith, ltb, ◌==◌,
  ==_iff, Bool-cases, inl, inr,
}
use vita_debugger.Console.{
  Console, slots, chunk_of, head_record, drop_head_as_stale, store_record, purge_from,
  purge_other_from, Progress, fill,
}
use vita_debugger.Console.Contents.{count-drop_head_as_stale}

-- `while(test) body` goes from one state to another in this many passes, and there its test fails.
pub data While {S : Type 0} (Test : S → Type 0) (body : S → S) : ℕ → S → S → Type 0 where
  done : (s : S) → ¬ Test s → While Test body zero s s
  pass : (n : ℕ) (s s' : S) → Test s → While Test body n (body s) s' → While Test body (suc n) s s'

-- The tests of the two loops that drop records.
abbrev pub AnyLeft : Console → Type 0
AnyLeft c = c.count ≢ 0

abbrev pub OtherLeft : ℕ → Console → Type 0
OtherLeft generation c = (c.count ≢ 0) × ((head_record c).generation ≢ generation)

-- The loop that stores records: its cursor, and its other variables with the console.
abbrev pub RoomLeft : List ℕ × Progress → Type 0
RoomLeft (cursor, p) = (p.remaining ≢ 0) × (p.console.count < slots)

abbrev pub store_next : ℕ → List ℕ × Progress → List ℕ × Progress
store_next generation (cursor, p) = (
  drop (chunk_of p.remaining) cursor,
  record {
    remaining = p.remaining - chunk_of p.remaining;
    accepted = p.accepted + chunk_of p.remaining;
    records = p.records + 1;
    console = store_record generation cursor (chunk_of p.remaining) p.console;
  },
)

purge_from-While :
    (fuel : ℕ) (c : Console)
    → c.count ≡ fuel
    → While AnyLeft drop_head_as_stale fuel c (purge_from fuel c)
unfolding purge_from
purge_from-While zero c e = done c (λ other. other e)
purge_from-While (suc fuel) c e = elim (Bool-cases (c.count == 0)) [
  | inl z ↦ absurd (omega (arith, e, (==_iff c.count 0).0 z))
  | inr more ↦ rw more (
      pass fuel c _ (λ z. omega (arith, e))
        (purge_from-While fuel (drop_head_as_stale c)
          (omega (arith, e, count-drop_head_as_stale c))))
]

purge_other_from-While :
    (fuel generation : ℕ) (c : Console)
    → c.count ≤ fuel
    → (n : ℕ) × (n ≤ fuel)
      × While (OtherLeft generation) drop_head_as_stale n c (purge_other_from fuel generation c)
unfolding purge_other_from
purge_other_from-While zero generation c h =
    (zero, omega arith, done c (λ o. o.0 (omega (arith, h))))
purge_other_from-While (suc fuel) generation c h =
    elim (Bool-cases (c.count == 0 || (head_record c).generation == generation)) [
      | inl stop ↦ rw stop (zero, omega arith, done c (λ o. ground arith))
      | inr more ↦
          let (n, few, run) =
            purge_other_from-While fuel generation (drop_head_as_stale c)
              (omega (arith, h, count-drop_head_as_stale c)) in
          rw more (suc n, omega (arith, few), pass n c _ (λ z. ground arith, λ z. ground arith) run)
    ]

fill-While :
    (fuel generation : ℕ) (cursor : List ℕ) (remaining accepted records : ℕ) (c : Console)
    → slots - c.count ≤ fuel
    → (n : ℕ) × (rest : List ℕ) × (n ≤ slots - c.count)
      × While RoomLeft
          (store_next generation)
          n
          (
            cursor,
            record { remaining = remaining; accepted = accepted; records = records; console = c },
          )
          (rest, fill fuel generation cursor remaining accepted records c)
unfolding fill store_record
fill-While zero generation cursor remaining accepted records c h =
    (zero, cursor, omega arith, done _ (λ r. omega (arith, h, r.1)))
fill-While (suc fuel) generation cursor remaining accepted records c h =
    elim (Bool-cases (not (remaining == 0) && ltb c.count slots)) [
      | inr stop ↦ rw stop (zero, cursor, omega arith, done _ (λ r. ground arith))
      | inl more ↦
          let chunk = chunk_of remaining in
          let room : c.count < slots = ground arith in
          let (n, rest, few, run) =
            fill-While fuel generation (drop chunk cursor) (remaining - chunk) (accepted + chunk)
              (records + 1) (store_record generation cursor chunk c) (omega (arith, h)) in
          rw more (suc n, rest, omega (arith, few, room), pass n _ _ (λ z. ground arith, room) run)
    ]

While-end :
    {S : Type 0} {Test : S → Type 0} {body : S → S} (n : ℕ) (s s' : S)
    → While Test body n s s'
    → ¬ Test s'
While-end _ _ _ (done s stop) = stop
While-end _ _ _ (pass n s s' t run) = While-end n _ s' run

-- A run, with the test that fails where it ends.
abbrev pub Ends : {S : Type 0} → (S → Type 0) → (S → S) → ℕ → S → S → Type 0
Ends Test body n s s' = While Test body n s s' × (¬ Test s')

-- From any state of the console, with the passes that the model gives them: the loop of
-- `console_purge_locked` drops as many records as there are and ends with none; the loop of
-- `console_purge_other_generations_locked` ends after at most that many passes, with no record or one
-- of the generation at the head; and the loop of `uvdb_console_capture` ends after at most one pass
-- for each free slot, with no byte remaining or no slot free. Each has made exactly the passes that
-- its test has called for.
pub loops_end :
    (generation : ℕ) (text : List ℕ) (size : ℕ) (c : Console)
    → Ends AnyLeft drop_head_as_stale c.count c (purge_from c.count c)
      × ((n : ℕ) × (n ≤ c.count)
          × Ends
              (OtherLeft generation)
              drop_head_as_stale
              n
              c
              (purge_other_from c.count generation c))
      × ((n : ℕ) × (rest : List ℕ) × (n ≤ slots - c.count)
          × Ends RoomLeft
              (store_next generation)
              n
              (text, record { remaining = size; accepted = 0; records = 0; console = c })
              (rest, fill slots generation text size 0 0 c))
loops_end generation text size c =
    let dropped = purge_from-While c.count c refl in
    let (n, few, run) = purge_other_from-While c.count generation c (omega arith) in
    let (m, rest, free, stored) = fill-While slots generation text size 0 0 c (omega arith) in
    (
      (dropped, While-end _ _ _ dropped),
      (n, few, (run, While-end _ _ _ run)),
      (m, rest, free, (stored, While-end _ _ _ stored)),
    )
