-- ===== src/Console/Log.antt =====
-- The promise of src/uvdb_console.c: a bounded log of the pieces of the session's output, which the
-- consumer reads from its front.
use vita_debugger.Prelude.{
  ℕ, ◌-◌, not, ◌||◌, List, [], ◌∷◌, ◌++◌, Option, none, some, length, ◌==◌, if◌then◌else◌,
}
use vita_debugger.Console.{
  ConsoleResult, error, empty, ready, busy, stale, slots, generation_valid, generation_of, is_open,
  open_word,
}
use vita_debugger.Console.Calls.{Others, next_generation, close_word, close_active_gate}
use vita_debugger.Console.Valid.{Piece}
use vita_debugger.Console.Contents.{fresh}
use vita_debugger.Console.Cut.{cut, last_number, texts}

pub record Log : Type 0 where
  pub held : List Piece
  pub number : ℕ
  pub session : ℕ

-- A call, with what others do in its middle.
pub data Call : Type 0 where
  open_call : Others → Call
  close_call : Others → List ℕ → ℕ → Call
  gate_call : List ℕ → Call
  capture_call : Others → List ℕ → Call
  peek_call : Others → ℕ → Call
  commit_call : Others → ℕ → ℕ → Call

pub data Reply : Type 0 where
  opened : ℕ → Reply
  closed : ConsoleResult → Reply
  gated : Reply
  captured : ℕ → Reply
  peeked : ConsoleResult → Option Piece → Reply
  committed : ConsoleResult → Reply

unfoldable pub open_log : Others → Log → ℕ × Log
open_log o s =
    let generation = next_generation (generation_of s.session) in
    if o.lifecycle_fails then (0, s) else (
      generation,
      record s { held = if o.queue_fails then s.held else []; session = open_word generation },
    )

unfoldable pub close_log : Others → List ℕ → ℕ → Log → ConsoleResult × Log
close_log o words generation s =
    let (proceed, word) = close_word words generation s.session in
    if not (generation_valid generation)
    then (error, s)
    else if not proceed
    then (stale, record s { session = word })
    else if o.lifecycle_fails || o.queue_fails
    then (busy, record s { session = word })
    else (ready, record s { held = []; session = word })

-- What fits is put behind what is held of the session.
unfoldable pub append_log : List ℕ → Log → ℕ × Log
append_log text s =
    let generation = generation_of s.session in
    let kept = fresh generation s.held in
    let new = cut (slots - length kept) generation s.number text in
    (length (texts new), record s { held = kept ++ new; number = last_number s.number new })

unfoldable pub capture_log : Others → List ℕ → Log → ℕ × Log
capture_log o text s =
    if length text == 0 || (not (is_open s.session) || o.queue_fails)
    then (0, s)
    else if not (o.session == s.session)
    then (0, record s { session = o.session })
    else append_log text s

-- The front of a log.
abbrev pub front : List Piece → ConsoleResult × Option Piece
front [] = (empty, none)
front (p ∷ ps) = (ready, some p)

unfoldable pub peek_log : Others → ℕ → Log → ConsoleResult × Option Piece × Log
peek_log o generation s =
    let kept = fresh generation s.held in
    let (result, p) = front kept in
    if not (generation_valid generation)
    then (error, none, s)
    else if not (s.session == open_word generation)
    then (stale, none, s)
    else if o.queue_fails
    then (busy, none, s)
    else if not (o.session == open_word generation)
    then (stale, none, record s { session = o.session })
    else (result, p, record s { held = kept })

-- The front is taken off, if it has the number.
abbrev pub take_front : ℕ → List Piece → ConsoleResult × List Piece
take_front number [] = (stale, [])
take_front number (p ∷ ps) = if p.sequence == number then (ready, ps) else (stale, p ∷ ps)

unfoldable pub commit_log : Others → ℕ → ℕ → Log → ConsoleResult × Log
commit_log o generation number s =
    let (result, left) = take_front number (fresh generation s.held) in
    if not (generation_valid generation) || number == 0
    then (error, s)
    else if not (s.session == open_word generation)
    then (stale, s)
    else if o.queue_fails
    then (busy, s)
    else if not (o.session == open_word generation)
    then (stale, record s { session = o.session })
    else (result, record s { held = left })

abbrev pub log_step : Call → Log → Reply × Log
log_step (open_call o) s = let (n, s') = open_log o s in (opened n, s')
log_step (close_call o words g) s = let (r, s') = close_log o words g s in (closed r, s')
log_step (gate_call words) s = (gated, record s { session = close_active_gate words s.session })
log_step (capture_call o text) s = let (n, s') = capture_log o text s in (captured n, s')
log_step (peek_call o g) s = let (r, p, s') = peek_log o g s in (peeked r p, s')
log_step (commit_call o g n) s = let (r, s') = commit_log o g n s in (committed r, s')

abbrev pub log_run : Log → List Call → List Reply
log_run s [] = []
log_run s (call ∷ calls) = let (reply, s') = log_step call s in reply ∷ log_run s' calls
