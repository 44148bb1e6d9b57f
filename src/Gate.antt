-- ===== src/Gate.antt =====
-- The gate of the protocol session: src/uvdb_protocol_gate.c. The gate's only field is its word, a
-- uint32_t with the closing flag in bit 31 and the owner below it; `& CLOSING` is then
-- `/ 2 ^ 31 * 2 ^ 31` and `& OWNER` is `% 2 ^ 31`. Each atomic operation is a function of the word;
-- a compare-and-exchange gives whether it stored, and the word after it. The gate is given, so that
-- the tests for NULL are left out.
pub mod System
pub mod Exclusion
use vita_debugger.Prelude.{
  ℕ, zero, suc, ◌+◌, ◌-◌, ◌*◌, ◌/◌, ◌%◌, ◌^◌, Bool, true, false, not, ◌&&◌, ◌||◌, Option, none,
  some, ◌==◌, if◌then◌else◌,
}

-- `enum uvdb_protocol_gate_result`
pub data GateResult : Type 0 where
  invalid closed busy acquired : GateResult

abbrev pub closing : ℕ
closing = 2 ^ 31

unfoldable pub owner_of : ℕ → ℕ
owner_of word = word % closing

unfoldable pub closing_of : ℕ → ℕ
closing_of word = (word / closing) % 2 * closing

unfoldable pub compare_exchange : ℕ → ℕ → ℕ → Bool × ℕ
compare_exchange word expected desired = if word == expected then (true, desired) else (false, word)

unfoldable pub token_is_valid : ℕ → Bool
token_is_valid owner = not (owner == 0) && closing_of owner == 0

-- One atomic operation: the word that a failed exchange observed decides between the last two.
unfoldable pub try_acquire : ℕ → ℕ → GateResult × ℕ
try_acquire word owner =
    let (stored, word') = compare_exchange word 0 owner in
    if not (token_is_valid owner)
    then (invalid, word)
    else if stored
    then (acquired, word')
    else if not (closing_of word == 0)
    then (closed, word)
    else (busy, word)

-- The body of the loop in `release` up to its exchange: the word that is to be stored, or the
-- result -1.
unfoldable pub release_desired : ℕ → ℕ → Option ℕ
release_desired observed owner =
    if not (token_is_valid owner) || not (owner_of observed == owner)
    then none
    else some (closing_of observed)

unfoldable pub close : ℕ → ℕ
close word = owner_of word + closing

-- The two exchanges of `reopen`. The first gives whether the call goes on to the second.
pub reopen_first : ℕ → Bool × ℕ
reopen_first word =
    let (stored, word') = compare_exchange word 0 0 in
    if stored then (false, word') else (word == closing, word')

pub reopen_second : ℕ → Bool × ℕ
reopen_second word = compare_exchange word closing 0

unfoldable pub is_idle : ℕ → Bool
is_idle word = owner_of word == 0

pub is_closing : ℕ → Bool
is_closing word = not (closing_of word == 0)
