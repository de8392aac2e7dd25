-- ===== src/Lib.antt =====
-- DB Relay: an NGiNX module that runs SQL for its HTTP clients and answers with JSON.
--
-- The parts, and the files that model them:
--   Base        shared names, tests on numbers, lists, byte strings, integers, decimal numbers
--   StringBuf   src/stringbuf.c: the string buffer, a chain of parts
--   Json        src/json.c: the writer, and next to it a reference text of a tree (Print), a reader
--               of strings (Escape) and the invariant of the writer (Writer)
--   Request     src/dbrelay.h and the request helpers of src/db.c
--   Params      src/db.c: placeholders and parameters, dbrelay_resolve_params
--   Pool        src/db.c and src/shmem.c: the pool of connections that worker processes share. Pool
--               has the slot operations, Pool.Reaping how slots come free and how a request gets one
--   Results     src/db.c: the answer to a statement, dbrelay_db_fill_data and dbrelay_exec_query, with a
--               description of answers as tables (Tables)
--   Status      src/db.c: the report dbrelay_db_status
--   Form        src/ngx_http_dbrelay_module.c: the form data of a request, parse_post_query_string and
--               its like (Scan), and write_value
--   Headers     src/ngx_http_dbrelay_module.c: the tests of the Origin and Accept headers
--   Query       src/db.c: dbrelay_db_run_query, from the request to the text of the answer
--   Socket      src/socket.c: sending a string and receiving a line (Lines, Streams)
--   Connector   src/connector.c: process_line, and main as the service of a client (Serving)
--   Client      src/client.c: the client of a connector, over a record of the socket's functions
--   Exchange    the client and the connector on one connection (RoundTrip), and a query behind its
--               wait on top of the two (Queries)
--   Admin       src/admin.c: the administrator's commands
--   Drivers     src/mssql.c: the names of types and tables and the statements of the catalog;
--               src/mysql.c: the names of types, the statements, and connecting
--   Tests       runs of the definitions and of the theorems
--
-- A request is read from a form (Form). A query (Query) takes a slot of the pool (Pool.Reaping),
-- puts its parameters into the text (Params), runs the statement (Results), and writes its answer
-- with the JSON writer (Json), which stands on the string buffer (StringBuf).
--
-- State is passed explicitly: a C structure is a record, a character array is the string in it
-- without its terminating zero, a byte is a number, and a null pointer is `none`. The pool is a
-- list of slots; the steps of Pool.Invariant are what the code does under one hold of the
-- semaphore each, by several processes in any order; dbrelay_db_get_connection, a wait and a query
-- are several holds, with no other process between them. What comes from outside is an argument:
-- the clock, the own process number, `kill(pid, 0)`, `tmpnam` and the handle of the database's
-- `connect` are fields of Pool.World; calls that leave the pool (closing a handle, launching a
-- connector, signals, unlink) are listed as effects. The database is a record of the driver's
-- functions on a state (Results.DbApi), and the connector of a named connection is what the
-- client's functions return (Query.Peer).
--
-- Bounds: counts of users are 32-bit unsigned integers with their wrap-around. Times, process
-- numbers and lengths are unbounded naturals. Writes behind an array's end make the form parsers
-- fail. The loop of dbrelay_wait_for_connection has no bound in the code; the model runs it on a
-- list of rounds, one for each call of connect, and a theorem says when that list is long enough.
-- The loops over results and rows run on fuel, one round for each of them and one more being
-- enough.
--
-- Not modelled: the copying of strings beyond the size of their array where the code does not
-- check it; allocation failure; logging; the handlers of the HTTP module; the creation of sockets,
-- signals, fork and exec; the command line program; the results of the database libraries; the
-- driver of src/odbc.c.
pub mod Base
pub mod StringBuf
pub mod Json
pub mod Request
pub mod Params
pub mod Pool
pub mod Results
pub mod Status
pub mod Query
pub mod Form
pub mod Headers
pub mod Socket
pub mod Connector
pub mod Client
pub mod Exchange
pub mod Admin
pub mod Drivers
pub mod Tests
