-- ===== src/Async/Request.antt =====
-- include/ozo/impl/async_request.h: the operations that send a query and get its result. They share
-- the context, and run one at a time in its strand.
pub mod Outcome
pub mod Turns
pub mod Completion
pub mod Loops
pub mod OutHandler
use ozo.Prelude.{
  ℕ, zero, suc, ◌+◌, Bool, true, false, not, List, [], ◌∷◌, ◌++◌, Option, none, some, Bytes,
  if◌then◌else◌,
}
use ozo.Prelude.Text.{codes}
use ozo.Errors.Codes.{ErrorCode, Code, is_error}
use ozo.Errors.SqlState.{result_error}
use ozo.Async.Native.{
  QueryState, ResultStatus, single_tuple, tuples_ok, command_ok, copy_out, copy_in, copy_both,
  nonfatal_error, bad_response, empty_query, fatal_error, unknown, Native, get_result_status_name,
  is_failed, is_sending, is_bad_descriptor, operation_aborted,
}

-- What an operation waits for: nothing any more, its turn after `post`, or its socket.
pub data Wait : Type 0 where
  finished posted polling : Wait

-- Where `async_get_result_op` goes on: `reenter` at the top, or behind `yield read_poll`.
pub data Resume : Type 0 where
  at_start behind_read_poll : Resume

-- `request_operation_context`, with the connection's native handle and error context, what the two
-- operations wait for, and the error codes that the request's handler has been posted with.
pub record Request (N : Type 0) : Type 0 where
  pub native : N
  pub error_context : Bytes
  pub state : QueryState
  pub send_op : Wait
  pub get_result_op : Wait
  pub resume : Resume
  pub posted_codes : List ErrorCode

module _ {N R : Type 0} (pq : Native N R) where
  -- `impl::done(ctx, ec)`; that it cancels the socket makes the polls end with an error code.
  unfoldable pub done_with : ErrorCode → Request N → Request N
  done_with ec s = record s { state = QueryState.error; posted_codes = s.posted_codes ++ ec ∷ [] }

  -- `impl::done(ctx)`
  unfoldable pub done : Request N → Request N
  done s = record s { posted_codes = s.posted_codes ++ ErrorCode.success ∷ [] }

  -- `while (!send_query_params(conn, query_));`, `none` if it has not ended within the fuel
  unfoldable pub send_loop : ℕ → N → Option N
  send_loop zero n = none
  send_loop (suc fuel) n =
      let attempt = pq.pq_send_query_params n in
      elim attempt.0 [ true ↦ some attempt.1 | false ↦ send_loop fuel attempt.1 ]

  -- `async_send_query_params_op::perform`
  unfoldable pub send_perform : ℕ → Request N → Option (Request N)
  send_perform fuel s =
      let mode = pq.pq_set_nonblocking s.native in
      let s' : Request N = record s { native = mode.1 } in
      elim mode.0 [
        | true ↦ some (done_with (ErrorCode.error Code.pg_set_nonblocking_failed) s')
        | false ↦ elim (send_loop fuel mode.1) [
          | none ↦ none
          | some n ↦ some (record s' { native = n; send_op = posted })
        ]
      ]

  -- The `switch` over `flush_output`.
  unfoldable pub send_flushed : QueryState → Request N → Request N
  send_flushed QueryState.error s = done_with (ErrorCode.error Code.pg_flush_failed) s
  send_flushed QueryState.send_in_progress s = record s { send_op = polling }
  send_flushed QueryState.send_finish s = record s { state = QueryState.send_finish }

  -- `async_send_query_params_op::operator ()`
  unfoldable pub send_step : ErrorCode → Request N → Request N
  send_step ec s =
      let s' : Request N = record s { send_op = finished } in
      let flush = pq.pq_flush_output s.native in
      if not (is_sending s.state)
      then s'
      else if is_error ec
      then done_with ec s'
      else send_flushed flush.0 (record s' { native = flush.1 })

  -- `async_get_result_op::done(ec)`
  unfoldable pub get_result_failed : ErrorCode → Request N → Request N
  get_result_failed ec s = done_with ec (record s {
    error_context = elim s.error_context [
      | [] ↦ codes "error while get request result"
      | c ∷ cs ↦ c ∷ cs
    ];
  })

  -- `consume_result`: `while(get_result(conn));`
  unfoldable pub consume_result : ℕ → N → N
  consume_result zero n = n
  consume_result (suc fuel) n =
      let next = pq.pq_get_result n in
      elim next.0 [ none ↦ next.1 | some r ↦ consume_result fuel next.1 ]

  unfoldable pub consumed : Request N → Request N
  consumed s = record s { native = consume_result (suc (pq.results_left s.native)) s.native }

  -- `async_request_op::operator()` on a connection: the context is made, the query sent, and the
  -- result asked for with `post`.
  unfoldable pub async_request : ℕ → N → Bytes → Option (Request N)
  async_request fuel n error_context =
      elim (send_perform fuel (record {
        native = n;
        error_context = error_context;
        state = QueryState.send_in_progress;
        send_op = finished;
        get_result_op = finished;
        resume = at_start;
        posted_codes = [];
      })) [ none ↦ none | some s ↦ some (record s { get_result_op = posted }) ]

  -- The result processor: `some what` if it throws an exception with that message.
  module _ (process : R → Option Bytes) where
    unfoldable pub process_and_done : R → Request N → Request N
    process_and_done r s = elim (process r) [
      | none ↦ done s
      | some what ↦
          get_result_failed (ErrorCode.error Code.bad_result_process)
            (record s { error_context = what })
    ]

    -- The `switch` over `result_status(*res)`.
    unfoldable pub handle_result : ResultStatus → R → Request N → Request N
    handle_result single_tuple r s = process_and_done r s
    handle_result tuples_ok r s = consumed (process_and_done r s)
    handle_result command_ok r s = consumed (done s)
    handle_result bad_response r s =
        consumed (get_result_failed (ErrorCode.error Code.result_status_bad_response) s)
    handle_result empty_query r s =
        consumed (get_result_failed (ErrorCode.error Code.result_status_empty_query) s)
    handle_result fatal_error r s =
        consumed (get_result_failed (result_error (pq.pq_result_error_field r)) s)
    handle_result status r s = consumed (
        get_result_failed (ErrorCode.error Code.result_status_unexpected)
          (record s { error_context = get_result_status_name status }))

    -- Behind the `while (is_busy)` loop.
    unfoldable pub take_result : Request N → Request N
    take_result s =
        let next = pq.pq_get_result s.native in
        let s' : Request N = record s { native = next.1 } in
        elim next.0 [ none ↦ done s' | some r ↦ handle_result (pq.pq_result_status r) r s' ]

    -- The head of the loop.
    unfoldable pub while_busy : Request N → Request N
    while_busy s =
        let busy = pq.pq_is_busy s.native in
        let s' : Request N = record s { native = busy.1 } in
        elim busy.0 [
          | true ↦ record s' { get_result_op = polling; resume = behind_read_poll }
          | false ↦ take_result s'
        ]

    unfoldable pub reenter : Resume → Request N → Request N
    reenter at_start s = while_busy s
    reenter behind_read_poll s =
        let consume = pq.pq_consume_input s.native in
        let s' : Request N = record s { native = consume.1 } in
        elim consume.0 [
          | false ↦ get_result_failed (ErrorCode.error Code.pg_consume_input_failed) s'
          | true ↦ while_busy s'
        ]

    -- `async_get_result_op::operator()`
    unfoldable pub get_result_step : ErrorCode → Request N → Request N
    get_result_step ec s =
        let s' : Request N = record s { get_result_op = finished } in
        if is_failed s.state
        then s'
        else if is_error ec
        then get_result_failed (if is_bad_descriptor ec then operation_aborted else ec) s'
        else reenter s.resume s'
