-- ===== src/Guard/Handlers.antt =====
-- Handlers that share the guard of src/uvdb_exception_guard.c: one step is one atomic operation of
-- one of them, or of the server that closes and reopens the guard.
use vita_debugger.Prelude.{ℕ, ◌<◌, ◌≡◌, true, false, List, [], ◌∷◌, ◌++◌, some, if◌then◌else◌}
use vita_debugger.Guard.{
  is_closed, admit, claim, begin_chain, end_chain, disown, count_off, count_on, close, reopen,
}

-- A callback that is counted, with its type of exception: behind the first exchange of `enter`, with
-- one of the three results of `enter`, in `leave` without the owner's word, and in `leave` behind a
-- subtraction that it has to take back.
pub data Handler : Type 0 where
  claiming primary nested shut_out leaving repairing : ℕ → Handler

pub record Guard : Type 0 where
  pub lifecycle : ℕ
  pub owner : ℕ
  pub chaining_mask : ℕ
  pub handlers : List Handler

abbrev pub start : Guard
start = record { lifecycle = 0; owner = 0; chaining_mask = 0; handlers = [] }

-- The handlers whose next operation is the subtraction.
pub data IsLeaving : Handler → Type 0 where
  nested_leaves : (t : ℕ) → IsLeaving (nested t)
  shut_out_leaves : (t : ℕ) → IsLeaving (shut_out t)
  owner_left : (t : ℕ) → IsLeaving (leaving t)

-- In most, one handler moves, between those before and after it.
pub data Step (s : Guard) : Guard → Type 0 where
  enter :
      (t word : ℕ)
      → t < 3
      → admit s.lifecycle ≡ some word
      → Step s (record s {
        lifecycle = word;
        handlers = (if is_closed s.lifecycle then shut_out t else claiming t) ∷ s.handlers;
      })
  claim_owner :
      (t : ℕ) (front back : List Handler)
      → s.handlers ≡ front ++ (claiming t ∷ back)
      → Step s (record s {
        owner = (claim s.owner t).1;
        handlers = front ++ ((if (claim s.owner t).0 then primary t else nested t) ∷ back);
      })
  -- a primary handler that finds another's owner in the word keeps its place: `leave` gives -1
  leave_owner :
      (t : ℕ) (front back : List Handler)
      → s.handlers ≡ front ++ (primary t ∷ back)
      → Step s (record s {
        owner = (disown s.owner t).1;
        handlers = front ++ ((if (disown s.owner t).0 then leaving t else primary t) ∷ back);
      })
  leave_count :
      (h : Handler) (front back : List Handler)
      → IsLeaving h
      → s.handlers ≡ front ++ (h ∷ back)
      → (count_off s.lifecycle).0 ≡ true
      → Step s (record s { lifecycle = (count_off s.lifecycle).1; handlers = front ++ back })
  leave_wrong :
      (h : Handler) (t : ℕ) (front back : List Handler)
      → IsLeaving h
      → s.handlers ≡ front ++ (h ∷ back)
      → (count_off s.lifecycle).0 ≡ false
      → Step s (record s {
        lifecycle = (count_off s.lifecycle).1;
        handlers = front ++ (repairing t ∷ back);
      })
  leave_repair :
      (t : ℕ) (front back : List Handler)
      → s.handlers ≡ front ++ (repairing t ∷ back)
      → Step s (record s { lifecycle = count_on s.lifecycle; handlers = front ++ back })
  chain :
      (t mask : ℕ)
      → begin_chain s.chaining_mask t ≡ some mask
      → Step s (record s { chaining_mask = mask })
  unchain : (t : ℕ) → Step s (record s { chaining_mask = end_chain s.chaining_mask t })
  shut : Step s (record s { lifecycle = close s.lifecycle })
  -- the exchange of `reopen`, whose test for idleness was done before, if at all
  open_again : Step s (record s { lifecycle = (reopen s.lifecycle).1 })

pub data Reachable : Guard → Type 0 where
  begin : Reachable start
  later : (s s' : Guard) → Reachable s → Step s s' → Reachable s'
