-- ===== src/Policies.antt =====
-- Small decisions of the debugger: what follows a file-I/O reply, src/uvdb_fileio_flow.c, and which
-- register bank of a thread is the user's, src/uvdb_registers.c. The pointers are given. A reply's
-- interrupt flag is a Boolean and a context one of two, so that the tests for another value are left
-- out.
use vita_debugger.Prelude.{
  ℕ, ◌+◌, ◌%◌, ◌≡◌, ◌≢◌, ◌⊎◌, inl, inr, refl, Bool, true, false, not, ◌&&◌, ◌==◌, if◌then◌else◌,
  Bool-cases, List, [], ◌∷◌, Option, none, some, arith,
}
use vita_debugger.Rsp.Packets.{FileioResult}

-- `enum uvdb_fileio_context`
pub data Context : Type 0 where
  unstopped real_stop : Context

-- `enum uvdb_fileio_action`
pub data Action : Type 0 where
  resume report_interrupt fail_closed : Action

-- `struct uvdb_fileio_transition`
pub record Transition : Type 0 where
  pub result : ℕ
  pub action : Action
  pub stop_reply_count : ℕ
  pub stop_signal : ℕ

abbrev pub sigint : ℕ
sigint = 2

pub transition_decide : FileioResult → Context → Transition
transition_decide reply context =
    let candidate : Transition = record {
      result = reply.result;
      action = resume;
      stop_reply_count = 0;
      stop_signal = 0;
    } in
    let interrupt = record candidate {
      action = report_interrupt;
      stop_reply_count = 1;
      stop_signal = sigint;
    } in
    if reply.interrupted
    then elim context [
      | real_stop ↦ interrupt
      | unstopped ↦ record candidate { action = fail_closed }
    ]
    else candidate

-- What a reply leads to is one of three: the target resumes; one stop reply with SIGINT is sent, only
-- for an interrupt of a target that is really stopped; or the call fails closed, only for an
-- interrupt outside such a stop. No other action sends a stop reply, and all carry the result.
transition_decide_lem :
    (reply : FileioResult) (context : Context)
    → let done = transition_decide reply context in
      (done.result ≡ reply.result)
      × (((reply.interrupted ≡ false) × (done.action ≡ resume) × (done.stop_reply_count ≡ 0))
          ⊎ (((reply.interrupted ≡ true)
                × (context ≡ real_stop)
                × (done.action ≡ report_interrupt)
                × (done.stop_reply_count ≡ 1)
                × (done.stop_signal ≡ sigint))
              ⊎ ((reply.interrupted ≡ true)
                  × (context ≡ unstopped)
                  × (done.action ≡ fail_closed)
                  × (done.stop_reply_count ≡ 0))))
unfolding transition_decide
transition_decide_lem reply unstopped = elim (Bool-cases reply.interrupted) [
  | inl e ↦ rw e (refl, inr (inr (refl, refl, refl, refl)))
  | inr e ↦ rw e (refl, inl (refl, refl, refl))
]
transition_decide_lem reply real_stop = elim (Bool-cases reply.interrupted) [
  | inl e ↦ rw e (refl, inr (inl (refl, refl, refl, refl, refl)))
  | inr e ↦ rw e (refl, inl (refl, refl, refl))
]

-- `struct uvdb_arm_register_bank_state`
pub record Bank : Type 0 where
  pub sp : ℕ
  pub pc : ℕ
  pub cpsr : ℕ

-- `cpsr & 0x1f` is `% 2 ^ 5`.
pub user_bank_is_valid : Bank → Bool
user_bank_is_valid bank = bank.cpsr % 32 == 0x10 && (not (bank.pc == 0) && not (bank.sp == 0))

-- The loop from an index on; there are two banks.
pub select_from : ℕ → List Bank → Option ℕ
select_from index [] = none
select_from index (bank ∷ banks) =
    let next = select_from (index + 1) banks in if user_bank_is_valid bank then some index else next

pub select_user_arm_register_bank : Bank → Bank → Option ℕ
select_user_arm_register_bank first second = select_from 0 (first ∷ second ∷ [])

abbrev pub IsUser : Bank → Type 0
IsUser bank = (bank.cpsr % 32 ≡ 0x10) × (bank.pc ≢ 0) × (bank.sp ≢ 0)

valid-IsUser : (bank : Bank) → user_bank_is_valid bank ≡ true → IsUser bank
unfolding user_bank_is_valid
valid-IsUser bank h = (ground arith, ground arith, ground arith)

invalid-IsUser : (bank : Bank) → user_bank_is_valid bank ≡ false → IsUser bank → ⊥
unfolding user_bank_is_valid
invalid-IsUser bank h (mode, pc, sp) = ground arith

-- The bank that is selected is the first of the two in user mode with a program counter and a stack,
-- and none is selected only if neither is.
select_user_arm_register_bank_lem :
    (first second : Bank)
    → ((select_user_arm_register_bank first second ≡ some 0) × IsUser first)
      ⊎ (((select_user_arm_register_bank first second ≡ some 1)
            × (IsUser first → ⊥)
            × IsUser second)
          ⊎ ((select_user_arm_register_bank first second ≡ none)
              × (IsUser first → ⊥)
              × (IsUser second → ⊥)))
unfolding select_user_arm_register_bank select_from
select_user_arm_register_bank_lem first second = elim (Bool-cases (user_bank_is_valid first)) [
  | inl e ↦ rw e (inl (refl, valid-IsUser first e))
  | inr e ↦ elim (Bool-cases (user_bank_is_valid second)) [
    | inl e' ↦ rw (e, e') (inr (inl (refl, invalid-IsUser first e, valid-IsUser second e')))
    | inr e' ↦ rw (e, e') (inr (inr (refl, invalid-IsUser first e, invalid-IsUser second e')))
  ]
]
