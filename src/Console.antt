-- ===== src/Console.antt =====
-- The capture queue of stdout and stderr: src/uvdb_console.c. Threads share it: what others do in
-- the middle of a call is an argument of it. The serialized owner makes the calls of the lifecycle
-- and of the consumer. The testing hooks are left out.
pub mod Calls
pub mod Valid
pub mod Window
pub mod Contents
pub mod Cut
pub mod Fill
pub mod Log
pub mod Refine
pub mod Outer
pub mod Run
pub mod Ledger
pub mod Accounts
pub mod Loops
use vita_debugger.Prelude.{
  ℕ, zero, suc, ◌+◌, ◌-◌, ◌/◌, ◌%◌, ◌^◌, Bool, true, false, not, ◌&&◌, ◌||◌, List, ◌++◌, take, drop,
  get_or, set, replicate, ltb, ◌==◌, if◌then◌else◌,
}

-- `enum uvdb_console_result`
pub data ConsoleResult : Type 0 where
  error empty ready busy stale : ConsoleResult

-- `struct uvdb_console_record`; `bytes` is its array `data`.
pub record Record : Type 0 where
  pub generation : ℕ
  pub sequence : ℕ
  pub size : ℕ
  pub bytes : List ℕ

-- A pair of counters, of records and of bytes.
pub record Tally : Type 0 where
  pub records : ℕ
  pub bytes : ℕ

-- `struct uvdb_console_counter_state`
pub record Counters : Type 0 where
  pub queued : Tally
  pub sessions_opened : ℕ
  pub reconnects : ℕ
  pub accepted : Tally
  pub sent : Tally
  pub dropped_disconnected : Tally
  pub dropped_contention : Tally
  pub dropped_full : Tally
  pub dropped_stale : Tally

-- The static variables, whose names start with `console_`.
pub record Console : Type 0 where
  pub queue : List Record
  pub head : ℕ
  pub tail : ℕ
  pub count : ℕ
  pub bytes : ℕ
  pub next_sequence : ℕ
  pub session : ℕ
  pub ever_opened : ℕ
  pub queue_lock : ℕ
  pub lifecycle_lock : ℕ
  pub stats : Counters

abbrev pub slots : ℕ
slots = 64

abbrev pub record_max : ℕ
record_max = 128

abbrev pub session_open_flag : ℕ
session_open_flag = 2 ^ 31

abbrev pub no_record : Record
no_record = record { generation = 0; sequence = 0; size = 0; bytes = replicate record_max 0 }

abbrev pub no_tally : Tally
no_tally = record { records = 0; bytes = 0 }

abbrev pub no_counters : Counters
no_counters = record {
  queued = no_tally;
  sessions_opened = 0;
  reconnects = 0;
  accepted = no_tally;
  sent = no_tally;
  dropped_disconnected = no_tally;
  dropped_contention = no_tally;
  dropped_full = no_tally;
  dropped_stale = no_tally;
}

-- A weak exchange of 0 by 1: it may fail though the lock is free.
pub try_lock : Bool → ℕ → Bool × ℕ
try_lock fails lock = if fails || not (lock == 0) then (false, lock) else (true, 1)

pub generation_valid : ℕ → Bool
generation_valid generation = not (generation == 0) && ltb generation session_open_flag

pub generation_of : ℕ → ℕ
generation_of session = session % session_open_flag

pub is_open : ℕ → Bool
is_open session = not ((session / session_open_flag) % 2 == 0)

-- `generation | UVDB_CONSOLE_SESSION_OPEN`, for a generation below the flag.
pub open_word : ℕ → ℕ
open_word generation = generation + session_open_flag

pub record_count : ℕ → ℕ
record_count size = (size / record_max + (if size % record_max == 0 then 0 else 1)) % 2 ^ 32

pub add : ℕ → ℕ → ℕ
add counter amount = (counter + amount % 2 ^ 32) % 2 ^ 32

pub add_both : Tally → ℕ → ℕ → Tally
add_both tally count size = record {
  records = add tally.records count;
  bytes = add tally.bytes size;
}

pub note_drop : Tally → ℕ → Tally
note_drop tally size = if size == 0 then tally else add_both tally (record_count size) size

pub publish_depth : Console → Console
publish_depth c = record c {
  stats = record c.stats { queued = record { records = c.count; bytes = c.bytes } };
}

-- Subtraction of uint32_t.
pub subtract : ℕ → ℕ → ℕ
subtract a b = (a + 2 ^ 32 - b % 2 ^ 32) % 2 ^ 32

pub head_record : Console → Record
head_record c = get_or c.queue c.head no_record

pub drop_head_as_stale : Console → Console
drop_head_as_stale c = record c {
  stats = record c.stats { dropped_stale = add_both c.stats.dropped_stale 1 (head_record c).size };
  bytes = subtract c.bytes (head_record c).size;
  head = (c.head + 1) % slots;
  count = c.count - 1;
}

-- The loop of `purge_locked`, on fuel.
pub purge_from : ℕ → Console → Console
purge_from zero c = c
purge_from (suc fuel) c =
    let rest = purge_from fuel (drop_head_as_stale c) in if c.count == 0 then c else rest

-- A pass takes one record off: as many as there are records are enough.
pub purge_locked : Console → Console
purge_locked c = publish_depth (record (purge_from c.count c) { head = 0; tail = 0 })

pub purge_other_from : ℕ → ℕ → Console → Console
purge_other_from zero generation c = c
purge_other_from (suc fuel) generation c =
    let rest = purge_other_from fuel generation (drop_head_as_stale c) in
    if c.count == 0 || (head_record c).generation == generation then c else rest

pub purge_other_generations_locked : ℕ → Console → Console
purge_other_generations_locked generation c = publish_depth (purge_other_from c.count generation c)

-- `uvdb_console_reset`, which sets every variable.
pub reset : Console
reset = record {
  queue = replicate slots no_record;
  head = 0;
  tail = 0;
  count = 0;
  bytes = 0;
  next_sequence = 0;
  session = 0;
  ever_opened = 0;
  queue_lock = 0;
  lifecycle_lock = 0;
  stats = no_counters;
}

-- The sequence number of the next record: 64 bits wide, and never 0.
pub next_number : ℕ → ℕ
next_number number = let number' = (number + 1) % 2 ^ 64 in if number' == 0 then 1 else number'

abbrev pub chunk_of : ℕ → ℕ
chunk_of remaining = if ltb record_max remaining then record_max else remaining

-- One pass of the loop of `capture`: a record of the first `chunk` bytes at `cursor`.
pub store_record : ℕ → List ℕ → ℕ → Console → Console
store_record generation cursor chunk c = record c {
  queue = set c.queue c.tail (record {
    generation = generation;
    sequence = next_number c.next_sequence;
    size = chunk;
    bytes = take chunk cursor ++ drop chunk (get_or c.queue c.tail no_record).bytes;
  });
  next_sequence = next_number c.next_sequence;
  tail = (c.tail + 1) % slots;
  count = c.count + 1;
  bytes = (c.bytes + chunk) % 2 ^ 32;
}

-- What the loop leaves of its variables.
pub record Progress : Type 0 where
  pub remaining : ℕ
  pub accepted : ℕ
  pub records : ℕ
  pub console : Console

pub fill : ℕ → ℕ → List ℕ → ℕ → ℕ → ℕ → Console → Progress
fill zero generation cursor remaining accepted records c = record {
  remaining = remaining;
  accepted = accepted;
  records = records;
  console = c;
}
fill (suc fuel) generation cursor remaining accepted records c =
    let chunk = chunk_of remaining in
    let rest =
      fill fuel generation (drop chunk cursor) (remaining - chunk) (accepted + chunk) (records + 1)
        (store_record generation cursor chunk c) in
    if not (remaining == 0) && ltb c.count slots
    then rest
    else record { remaining = remaining; accepted = accepted; records = records; console = c }
