-- ===== src/Async/Tests.antt =====
-- A connection on which the theorems about the asynchronous operations are tried.
use mathlib.Core.Path.{subst}
use ozo.Prelude.{
  ℕ, zero, suc, ◌≡◌, ◌≢◌, refl, sym, Bool, true, false, [], ◌∷◌, Option, none, some, Bytes, arith,
}
use ozo.Errors.Codes.{ErrorCode, is_error}
use ozo.Async.Native.{
  QueryState, ResultStatus, single_tuple, command_ok, Native, IsDraining, is_failed, is_sending,
}
use ozo.Async.Request.{
  finished, posted, polling, at_start, Request, send_flushed, send_step, send_loop, send_perform,
  async_request, get_result_step, handle_result, reenter, while_busy, take_result, done, consumed,
}
use ozo.Async.Request.Outcome.{Outcome, get_result_step-Outcome}
use ozo.Async.Request.Turns.{Phase, Resumes, send_turn, get_result_turn, Reachable, start, step}
use ozo.Async.Request.Completion.{async_request-Phase}
use ozo.Async.Request.Loops.{async_request_endless, Drained, handle_result-Drained}

-- A native connection that still has a number of command results, whose output is never flushed.
pub get_result : ℕ → Option ResultStatus × ℕ
get_result zero = (none, zero)
get_result (suc n) = (some command_ok, n)

abbrev pub slow : Bool → Native ℕ ResultStatus
slow sends = record {
  pq_set_nonblocking = λ n. (false, n);
  pq_send_query_params = λ n. (sends, n);
  pq_flush_output = λ n. (QueryState.send_in_progress, n);
  pq_is_busy = λ n. (false, n);
  pq_consume_input = λ n. (true, n);
  pq_get_result = get_result;
  pq_result_status = λ r. r;
  pq_result_error_field = λ r. none;
  results_left = λ n. n;
}

slow-IsDraining : IsDraining (slow true)
unfolding get_result
slow-IsDraining zero r h = ground (arith, h)
slow-IsDraining (suc n) r h = omega arith

abbrev pub process : ResultStatus → Option Bytes
process r = none

abbrev pub begun : Request ℕ
begun = record {
  native = 1;
  error_context = [];
  state = QueryState.send_in_progress;
  send_op = posted;
  get_result_op = posted;
  resume = at_start;
  posted_codes = [];
}

pub begun_request : async_request (slow true) 1 1 [] ≡ some begun
unfolding async_request send_perform send_loop
begun_request = refl

abbrev sent : Request ℕ
sent = send_step (slow true) ErrorCode.success begun

abbrev got : Request ℕ
got = get_result_step (slow true) process ErrorCode.success sent

abbrev reset : ErrorCode
reset = ErrorCode.system 104

sent_waits : Resumes sent.get_result_op ErrorCode.success
unfolding send_step send_flushed is_sending is_error
sent_waits = refl

not_single : command_ok ≢ single_tuple
not_single e = ground (arith, e)

got_waits : got.send_op ≡ polling
unfolding get_result_step send_step send_flushed is_failed is_sending is_error reenter while_busy
    take_result handle_result done consumed get_result
got_waits = refl

-- The request posts its handler with success, and its sending fails behind that.
twice : Reachable (slow true) process begun (send_step (slow true) reset got)
twice =
    step got (send_step (slow true) reset got)
      (step sent got (step begun sent start (send_turn begun ErrorCode.success refl))
        (get_result_turn sent ErrorCode.success sent_waits))
      (send_turn got reset (subst (λ w. Resumes w reset) (sym got_waits) tt))

async_request-Phase_example : Phase (send_step (slow true) reset got)
async_request-Phase_example =
    async_request-Phase (slow true) process 1 1 [] begun (send_step (slow true) reset got)
      begun_request twice

got_codes : got.posted_codes ≡ ErrorCode.success ∷ []
unfolding get_result_step send_step send_flushed is_failed is_sending is_error reenter while_busy
    take_result handle_result done consumed get_result
got_codes = refl

got_sending : is_sending got.state ≡ true
unfolding get_result_step send_step send_flushed is_failed is_sending is_error reenter while_busy
    take_result handle_result done consumed get_result
got_sending = refl

reset_error : is_error reset ≡ true
unfolding is_error
reset_error = refl

begun_live : is_failed begun.state ≡ false
unfolding is_failed
begun_live = refl

get_result_step-Outcome_example :
    Outcome
      (record begun { get_result_op = finished })
      (get_result_step (slow true) process ErrorCode.success begun)
get_result_step-Outcome_example =
    get_result_step-Outcome (slow true) process ErrorCode.success begun begun_live

async_request_endless_example : async_request (slow false) 7 1 [] ≡ none
async_request_endless_example = async_request_endless (slow false) 7 1 [] (λ n. refl) refl

handle_result-Drained_example :
    Drained (slow true) (handle_result (slow true) process command_ok command_ok begun).native
handle_result-Drained_example =
    handle_result-Drained (slow true) process command_ok command_ok begun slow-IsDraining not_single
