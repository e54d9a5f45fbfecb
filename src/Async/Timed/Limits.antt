-- ===== src/Async/Timed/Limits.antt =====
-- The timer in every state that a request reaches.
use ozo.Prelude.{ℕ, ◌≡◌, ◌≢◌, Option, Bytes}
use ozo.Async.Native.{Native}
use ozo.Async.Request.{Request}
use ozo.Async.Timed.{Timer, running, expired, cancelled, timed_out, called_off, Timed}

-- What a state of the timer says of the calls of the handler and of the cancellations of the socket.
abbrev pub Limits : Timer → ℕ → ℕ → Type 0
Limits running calls cancels = (calls ≡ 0) × (cancels ≡ 0)
Limits expired calls cancels = cancels ≡ 0
Limits cancelled calls cancels = (calls ≢ 0) × (cancels ≡ 0)
Limits timed_out calls cancels = cancels ≡ 1
Limits called_off calls cancels = (calls ≢ 0) × (cancels ≡ 0)

module _ {N R : Type 0} (pq : Native N R) (process : R → Option Bytes) where
  abbrev IsLimited : Timed N → Type 0
  IsLimited t = Limits t.timer t.calls t.cancels
