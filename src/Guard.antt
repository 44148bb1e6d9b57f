-- ===== src/Guard.antt =====
-- The guard of the exception handlers: src/uvdb_exception_guard.c. Each atomic operation is a
-- function of the word it works on. `lifecycle` is a uint32_t with the closing flag in bit 31 and the
-- number of handlers below it; a type of exception is below 3; the guard is given.
pub mod Handlers
pub mod Counting
pub mod Exclusion
pub mod Leave
use vita_debugger.Prelude.{
  ℕ, zero, suc, ◌+◌, ◌-◌, ◌*◌, ◌/◌, ◌%◌, ◌^◌, Bool, true, false, not, ◌&&◌, ◌||◌, Option, none,
  some, ◌==◌, if◌then◌else◌,
}

abbrev pub closed_bit : ℕ
closed_bit = 2 ^ 31

unfoldable pub active_of : ℕ → ℕ
active_of lifecycle = lifecycle % closed_bit

unfoldable pub is_closed : ℕ → Bool
is_closed lifecycle = not ((lifecycle / closed_bit) % 2 == 0)

unfoldable pub exchange : ℕ → ℕ → ℕ → Bool × ℕ
exchange word expected desired = if word == expected then (true, desired) else (false, word)

-- A pass of the loop in `enter` whose exchange stores: the word after it, or the result INVALID.
unfoldable pub admit : ℕ → Option ℕ
admit lifecycle = if active_of lifecycle == closed_bit - 1 then none else some (lifecycle + 1)

-- The exchange of `enter` on the owner: whether the handler is the PRIMARY one.
unfoldable pub claim : ℕ → ℕ → Bool × ℕ
claim owner exception_type = exchange owner 0 (exception_type + 1)

-- A pass of the loop in `begin_chain` whose exchange stores: the mask after it, or the result 0.
pub begin_chain : ℕ → ℕ → Option ℕ
begin_chain mask exception_type =
    if (mask / 2 ^ exception_type) % 2 == 1 then none else some (mask + 2 ^ exception_type)

pub end_chain : ℕ → ℕ → ℕ
end_chain mask exception_type =
    if (mask / 2 ^ exception_type) % 2 == 1 then mask - 2 ^ exception_type else mask

-- The exchange of `leave` on the owner, for a PRIMARY handler.
pub disown : ℕ → ℕ → Bool × ℕ
disown owner exception_type = exchange owner (exception_type + 1) 0

-- The subtraction of `leave`: whether there was a handler to count off, and the word after it.
pub count_off : ℕ → Bool × ℕ
count_off lifecycle = (not (active_of lifecycle == 0), (lifecycle + 2 ^ 32 - 1) % 2 ^ 32)

-- The addition that `leave` takes back a wrong subtraction with.
pub count_on : ℕ → ℕ
count_on lifecycle = (lifecycle + 1) % 2 ^ 32

unfoldable pub close : ℕ → ℕ
close lifecycle = active_of lifecycle + closed_bit

unfoldable pub is_idle : ℕ → ℕ → ℕ → Bool
is_idle lifecycle owner mask = active_of lifecycle == 0 && (owner == 0 && mask == 0)

-- The exchange of `reopen`.
pub reopen : ℕ → Bool × ℕ
reopen lifecycle = exchange lifecycle closed_bit 0
