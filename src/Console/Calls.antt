-- ===== src/Console/Calls.antt =====
-- The calls of src/uvdb_console.c that other modules make.
use vita_debugger.Prelude.{
  ℕ, ◌+◌, ◌-◌, ◌%◌, Bool, true, false, not, ◌||◌, List, [], ◌∷◌, Option, none, some, ◌==◌,
  if◌then◌else◌,
}
use vita_debugger.Console.{
  ConsoleResult, error, empty, ready, busy, stale, Record, Counters, Console, slots,
  session_open_flag, try_lock, generation_valid, generation_of, is_open, open_word, add, add_both,
  note_drop, publish_depth, subtract, head_record, purge_locked, purge_other_generations_locked,
  Progress, fill,
}

-- What others do during a call: whether an attempt at a lock fails for them or by chance, and the
-- session's word when the call loads it again under the queue's lock.
pub record Others : Type 0 where
  pub queue_fails : Bool
  pub lifecycle_fails : Bool
  pub session : ℕ

-- The generation after another one, which is never 0.
pub next_generation : ℕ → ℕ
next_generation generation =
    let next = (generation + 1) % session_open_flag in if next == 0 then 1 else next

-- The purge of `session_open`, if the queue can be locked at once.
unfoldable pub purge_if_free : Bool → Console → Console
purge_if_free fails c =
    let (locked, lock) = try_lock fails c.queue_lock in
    if locked then record (purge_locked (record c { queue_lock = lock })) { queue_lock = 0 } else c

-- The counting and the opening of a generation that `session_open` does last.
unfoldable pub start_session : ℕ → Console → Console
start_session generation c =
    let s = c.stats in
    record c {
      stats = record s {
        sessions_opened = add s.sessions_opened 1;
        reconnects = if c.ever_opened == 0 then s.reconnects else add s.reconnects 1;
      };
      ever_opened = if c.ever_opened == 0 then 1 else c.ever_opened;
      session = open_word generation;
      lifecycle_lock = 0;
    }

unfoldable pub session_open : Others → Console → ℕ × Console
session_open o c =
    let (locked, lock) = try_lock o.lifecycle_fails c.lifecycle_lock in
    let old = generation_of c.session in
    let c' = purge_if_free o.queue_fails (record c { session = old; lifecycle_lock = lock }) in
    if not locked then (0, c) else (next_generation old, start_session (next_generation old) c')

-- The loop of `session_close`: in a pass, others store the next of the words between the load and
-- the exchange, and in the last pass nothing. Whether the call goes on, and the word then.
pub close_word : List ℕ → ℕ → ℕ → Bool × ℕ
close_word [] generation session =
    if session == generation
    then (true, session)
    else if not (session == open_word generation)
    then (false, session)
    else (true, generation)
close_word (word ∷ words) generation session =
    let rest = close_word words generation word in
    if session == generation
    then (true, session)
    else if not (session == open_word generation)
    then (false, session)
    else if word == session
    then (true, generation)
    else rest

unfoldable pub finish_close : Others → Console → ConsoleResult × Console
finish_close o c =
    let (owned, lifecycle) = try_lock o.lifecycle_fails c.lifecycle_lock in
    let (locked, lock) = try_lock o.queue_fails c.queue_lock in
    if not owned
    then (busy, c)
    else if not locked
    then (busy, record c { lifecycle_lock = 0 })
    else (
      ready,
      record (purge_locked (record c { lifecycle_lock = lifecycle; queue_lock = lock })) {
        queue_lock = 0;
        lifecycle_lock = 0;
      },
    )

unfoldable pub session_close : Others → List ℕ → ℕ → Console → ConsoleResult × Console
session_close o words generation c =
    let (proceed, word) = close_word words generation c.session in
    let c' = record c { session = word } in
    if not (generation_valid generation)
    then (error, c)
    else if not proceed
    then (stale, c')
    else finish_close o c'

-- `session_close_active_gate` on the word, with the stores of others as above.
pub close_active_gate : List ℕ → ℕ → ℕ
close_active_gate [] session = if is_open session then generation_of session else session
close_active_gate (word ∷ words) session =
    let rest = close_active_gate words word in
    if not (is_open session)
    then session
    else if word == session
    then generation_of session
    else rest

-- `capture` behind the loop: what was taken is counted, and what was not.
unfoldable pub settle_capture : Progress → ℕ × Console
settle_capture p =
    let c = record (publish_depth p.console) { queue_lock = 0 } in
    let s = c.stats in
    let took = if p.records == 0 then s.accepted else add_both s.accepted p.records p.accepted in
    (
      p.accepted,
      record c {
        stats = record s { accepted = took; dropped_full = note_drop s.dropped_full p.remaining };
      },
    )

-- `capture` with the queue locked, and the session still the one that it saw first.
unfoldable pub capture_locked : List ℕ → ℕ → Console → ℕ × Console
capture_locked data' size c =
    let generation = generation_of c.session in
    settle_capture
      (fill slots generation data' size 0 0 (purge_other_generations_locked generation c))

unfoldable pub capture_some : Others → List ℕ → ℕ → Console → ℕ × Console
capture_some o data' size c =
    let s = c.stats in
    let (locked, lock) = try_lock o.queue_fails c.queue_lock in
    if not (is_open c.session)
    then (
      0,
      record c {
        stats = record s { dropped_disconnected = note_drop s.dropped_disconnected size };
      },
    )
    else if not locked
    then (
      0,
      record c { stats = record s { dropped_contention = note_drop s.dropped_contention size } },
    )
    else if not (o.session == c.session)
    then (
      0,
      record c {
        session = o.session;
        queue_lock = 0;
        stats = record s { dropped_stale = note_drop s.dropped_stale size };
      },
    )
    else capture_locked data' size (record c { queue_lock = lock })

-- `data` is `none` for NULL, and has at least `size` bytes otherwise.
unfoldable pub capture : Others → Option (List ℕ) → ℕ → Console → ℕ × Console
capture o none size c = (0, c)
capture o (some data') size c = if size == 0 then (0, c) else capture_some o data' size c

-- `peek` with the queue locked: the record that it copies out.
unfoldable pub peek_locked : ℕ → Console → ConsoleResult × Option Record × Console
peek_locked generation c =
    let c' = record (purge_other_generations_locked generation c) { queue_lock = 0 } in
    if c'.count == 0 then (empty, none, c') else (ready, some (head_record c'), c')

-- The caller gives a record.
unfoldable pub peek : Others → ℕ → Console → ConsoleResult × Option Record × Console
peek o generation c =
    let (locked, lock) = try_lock o.queue_fails c.queue_lock in
    if not (generation_valid generation)
    then (error, none, c)
    else if not (c.session == open_word generation)
    then (stale, none, c)
    else if not locked
    then (busy, none, c)
    else if not (o.session == open_word generation)
    then (stale, none, record c { session = o.session; queue_lock = 0 })
    else peek_locked generation (record c { queue_lock = lock })

-- Taking the head off, which was sent.
unfoldable pub take_head : Console → Console
take_head c =
    let size = (head_record c).size in
    let c' = publish_depth (record c {
      bytes = subtract c.bytes size;
      head = (c.head + 1) % slots;
      count = c.count - 1;
    }) in
    record c' { queue_lock = 0; stats = record c'.stats { sent = add_both c'.stats.sent 1 size } }

unfoldable pub commit_locked : ℕ → ℕ → Console → ConsoleResult × Console
commit_locked generation sequence c =
    let c' = purge_other_generations_locked generation c in
    if c'.count == 0 || not ((head_record c').sequence == sequence)
    then (stale, record c' { queue_lock = 0 })
    else (ready, take_head c')

unfoldable pub commit_sent : Others → ℕ → ℕ → Console → ConsoleResult × Console
commit_sent o generation sequence c =
    let (locked, lock) = try_lock o.queue_fails c.queue_lock in
    if not (generation_valid generation) || sequence == 0
    then (error, c)
    else if not (c.session == open_word generation)
    then (stale, c)
    else if not locked
    then (busy, c)
    else if not (o.session == open_word generation)
    then (stale, record c { session = o.session; queue_lock = 0 })
    else commit_locked generation sequence (record c { queue_lock = lock })

-- `struct uvdb_console_stats`
pub record Stats : Type 0 where
  pub counters : Counters
  pub session_generation : ℕ
  pub session_open : Bool

pub get_stats : Console → Stats
get_stats c = record {
  counters = c.stats;
  session_generation = generation_of c.session;
  session_open = is_open c.session;
}
