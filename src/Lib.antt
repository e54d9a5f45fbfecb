-- ===== src/Lib.antt =====
-- A model of ozo, a header-only C++ client of PostgreSQL over libpq and Boost.Asio (include/ozo).
--
-- The program's parts and the files that model them:
--
-- - Prelude: names of the libraries passed on, lists over native numbers, Boolean tests, the
--   result type of code that throws, text as bytes. It models no code of its own.
-- - Io: the binary format. Endian models detail/endian.h and detail/typed_buffer.h; Stream models
--   impl/read.h and impl/write.h over streams of bytes, and Stream.Buffers the stream buffers of
--   detail/istream.h and detail/ostream.h; Types and OidMap model
--   type_traits.h; SizeOf, Send and Recv model io/size_of.h, io/send.h and io/recv.h with
--   io/array.h and io/composite.h, one function for each (`size_of`, `send`, `recv`) by recursion
--   on the C++ type; BinaryQuery models io/binary_query.h, which hands the parameters of a query
--   to libpq.
-- - Errors: Codes models `error::code` and SqlState models `sqlstate::code` of error.h with the
--   messages of their categories, and `pq_result_error` of impl/io.h; Base36 models
--   detail/base36.h.
-- - Query: Builder models query_builder.h, Conf models query_conf.h, with its grammars in
--   Conf.Grammar, and Send joins the builder with Io.BinaryQuery to the arguments of
--   PQsendQueryParams.
-- - Async: Native is libpq as impl/io.h calls it, and impl/result_status.h; Request models the two
--   operations of impl/async_request.h over their shared context, with the processor that receives
--   a result in Request.OutHandler, and Timed the timer around them with detail/timeout_handler.h
--   and detail/cancel_timer_handler.h; Connect models impl/async_connect.h; RequestOids models
--   impl/request_oid_map.h and the handler that starts it; Transaction models impl/transaction.h.
-- - Rows: result.h and impl/result.h, the proxies of a result with their iterators and checks;
--   Receive models the part of io/recv.h that receives values, rows and results through them, and
--   Partial what an exception leaves in the container.
-- - Connections: impl/connection.h and connection.h, a connection behind the objects that wrap it;
--   Calls models the functions of impl/io.h that call libpq through such an object; Execute models
--   impl/async_execute.h and the handlers around that of a request, which is seen there as a
--   function of the handle and the error context that it finds, and Transactions transaction.h,
--   impl/async_start_transaction.h and impl/async_end_transaction.h, from a provider's answer to
--   the handler.
-- - Pool: impl/connection_pool.h, around the resource pool, which is another library's; Source
--   puts it over connection_info.h and Async.Connect, with the request for the oids in Oids, and
--   Provider models connection_pool.h and connector.h.
--
-- How they interact: a query of Query has a text and parameters; Io.BinaryQuery serializes them
-- with the oids of the connection's map, which Async.RequestOids fills after Async.Connect;
-- Async.Request sends the query and hands the result to Rows, which receives its values with
-- `recv` of Io, and a failure becomes a code of Errors. Pool hands out the objects of Connections,
-- and Transactions works on what it or another provider answers.
--
-- Integers are natural numbers below 2 ^ w with their wrap-around written out; a negative int is
-- its bit pattern. The host is little-endian. A float is its bit pattern. An input stream is the
-- bytes that are left, and an output stream is the bytes that are written. A type of C++ is a
-- value of `Ty`, with its values in `El`; nullables of nullables and arrays of arrays, which do
-- not compile in C++, mean nothing. Asynchronous code is a step on the state of an operation:
-- `send_step`, `get_result_step` and `resume` are the handlers that asio calls, and a relation
-- `Reachable` takes them in any order. A poll may end with any error code, which covers
-- cancellation; in Async.Timed the timer of a request expires at any time, and its callback runs
-- at any later one. The context's strand runs one handler at a time, so that a handler is one
-- step.
--
-- Fuel and bounds: `push_digits` has 13 rounds since 2 ^ 64 < 36 ^ 13; `to_string` has 20 since
-- 2 ^ 64 < 10 ^ 20; `send_loop` has the fuel of its caller, since the loop of the source need not end;
-- `consume_result` has as many rounds as libpq has results left and one more; the loop `visit` over a
-- result has a round for each row.
--
-- Parameters: the calls of libpq, the system calls and asio's assignment of a socket (`Native`,
-- `Connector`, `PgResult`, `ConnectionApi`), the resource pool, the processor of a result, the
-- parsers of Boost.Spirit X3 that the grammars of query files are made of (`X3`, with what its
-- documentation says of them as `IsX3`), `boost::trim` and `try_lexical_convert`. The skipper of
-- the grammars skips NUL, and the theorems about them are about texts without NUL. What asio
-- documents of timers and of cancelling a socket is in the steps of Async.Timed: a timer that has
-- expired is cancelled no more, and the operations that wait for a cancelled socket end with
-- `operation_aborted`. A handler that is posted is called at any later step, which is when
-- `cancel_timer_handler` cancels the timer. The insert iterator of a result is
-- `std::back_inserter`.
--
-- Behaviour that C++ leaves undefined is `none`: a forward iterator past its objects, and what is
-- done to a connection object that leads to no connection.
--
-- Not modelled: what only forwards to modelled code (request.h, execute.h), statistics, the timer
-- of connecting (its polls may end with any error), the types of detail/pg_type.h, and the
-- compile-time concepts.
pub mod Prelude
pub mod Io
pub mod Async
pub mod Errors
pub mod Query
pub mod Rows
pub mod Connections
pub mod Pool
