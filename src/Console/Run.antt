-- ===== src/Console/Run.antt =====
-- Sequences of the calls of src/uvdb_console.c.
use vita_debugger.Prelude.{replicate-All, ◌≡◌, refl, ap, ◌∙◌, List, [], ◌∷◌, some, length, arith}
use mathlib.Core.Option.{map}
use mathlib.Core.Path.{ap₂}
use vita_debugger.Console.{Console, reset, no_record, slots}
use vita_debugger.Console.Calls.{
  session_open, close_active_gate, session_close, capture, peek, commit_sent,
}
use vita_debugger.Console.Valid.{piece, contents, IsRecord, no_record-IsRecord}
use vita_debugger.Console.Refine.{log, logged, IsReady}
use vita_debugger.Console.Log.{
  Call, open_call, close_call, gate_call, capture_call, peek_call, commit_call, Reply, opened,
  closed, gated, captured, peeked, committed, log_step, log_run,
}
use vita_debugger.Console.Outer.{
  peek_refines, commit_refines, capture_refines, open_refines, close_refines,
}

-- A call, its reply as the log's.
abbrev pub console_step : Call → Console → Reply × Console
console_step (open_call o) c = let (n, c') = session_open o c in (opened n, c')
console_step (close_call o words g) c = let (r, c') = session_close o words g c in (closed r, c')
console_step (gate_call words) c = (gated, record c { session = close_active_gate words c.session })
console_step (capture_call o text) c =
    let (n, c') = capture o (some text) (length text) c in (captured n, c')
console_step (peek_call o g) c = let (r, out, c') = peek o g c in (peeked r (map piece out), c')
console_step (commit_call o g n) c = let (r, c') = commit_sent o g n c in (committed r, c')

abbrev pub console_run : Console → List Call → List Reply
console_run c [] = []
console_run c (call ∷ calls) = let (reply, c') = console_step call c in reply ∷ console_run c' calls

-- Every call, from a console between two calls, replies as the log and leaves it as the log is.
pub console_step_refines :
    (call : Call) (c : Console)
    → IsReady c
    → (logged (console_step call c) ≡ log_step call (log c)) × IsReady (console_step call c).1
console_step_refines (open_call o) c r =
    let (e, r') = open_refines o c r in (ap (λ (n, s). (opened n, s)) e, r')
console_step_refines (close_call o words g) c r =
    let (e, r') = close_refines o words g c r in (ap (λ (n, s). (closed n, s)) e, r')
console_step_refines (gate_call words) c r =
    (refl, record { valid = r.valid; unlocked = r.unlocked; settled = r.settled })
console_step_refines (capture_call o text) c r =
    let (e, r') = capture_refines o text c r in (ap (λ (n, s). (captured n, s)) e, r')
console_step_refines (peek_call o g) c r =
    let (e, r') = peek_refines o g c r in (ap (λ (n, p, s). (peeked n p, s)) e, r')
console_step_refines (commit_call o g n) c r =
    let (e, r') = commit_refines o g n c r in (ap (λ (n, s). (committed n, s)) e, r')

-- From a console between two calls, any sequence of calls, whatever other threads do in the middle of
-- them, gives the replies of the log of what the console holds.
pub console_run_refines :
    (calls : List Call) (c : Console) → IsReady c → console_run c calls ≡ log_run (log c) calls
console_run_refines [] c r = refl
console_run_refines (call ∷ calls) c r =
    let (e, r') = console_step_refines call c r in
    ap₂ ◌∷◌ (ap (λ (reply, s). reply) e)
      (console_run_refines calls _ r' ∙ ap (λ (reply, s). log_run s calls) e)

-- `uvdb_console_reset` leaves a console between two calls, which holds nothing.
pub reset-IsReady : IsReady reset × (contents reset ≡ [])
unfolding reset
reset-IsReady = (
  record {
    valid = record {
      storage = refl;
      records = replicate-All IsRecord slots no_record no_record-IsRecord;
      head_in = omega arith;
      count_in = omega arith;
      tail_at = refl;
      bytes_at = refl;
    };
    unlocked = refl;
    settled = refl;
  },
  refl,
)
