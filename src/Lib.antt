-- ===== src/Lib.antt =====
-- The foreign code of llgoexamples. Two C programs that drive the HTTP library hyper through its C
-- interface, a client that gets a page (lib/rust/hyper/examples/client.c) and one that posts a file
-- (lib/rust/hyper/examples/upload.c); a C program that prints a CSV file through a wrapper of the csv
-- crate (lib/rust/csv-wrapper/test/main.c over lib/rust/csv-wrapper/src/lib.rs); and the wrapper of
-- the sled database (lib/rust/sled/src/lib.rs) with the Go package over it (rust/sled/sled.go). Of the
-- Go demos, those of csv and sled, and the client over hyper
-- (rust/hyper/_demo/hyper_client/hyper.go).
--
-- The two clients connect a socket, make it non-blocking, give hyper two callbacks that read and write
-- it, and run a loop. The loop polls hyper's executor for finished tasks and acts on each by the
-- number stored with it (handshake, send, response body); when every task waits, it waits for the
-- socket with `select` and wakes the tasks that registered a waker.
--
-- The model is a state of two parts: a log of the calls that the program made, and the connection's
-- data. A call that hands out a pointer puts it into the log, and what is alive is computed from the
-- log. What is not code of these programs (hyper, the C library, the system) answers as the fields of
-- `Env`, each a function of the log, so that an answer may depend on all that came before; `Laws` is
-- what the programs rely on. hyper's executor is one such answer: each time it says which callback it
-- runs, that a task is finished, or that all wait. `run` takes fuel, the number of these reactions,
-- and yields `running` when it is used up. The loops serve as long as hyper has work, so no number
-- is enough for every peer; the modules Returns are about how many are when hyper gets done, the
-- modules Succeeds about the result when nothing fails. The loop of the CSV program takes fuel too,
-- one for each record and one for the end, and so does a scan of the database.
--
-- The Go client is client.c ported to Go, which collects the body of the response in a block of malloc.
-- Its state has the response and the blocks besides, a block as a list of bytes that may have no value
-- yet; its functions panic, and then nothing of what follows is run. What is read or written outside
-- of a block is undefined.
--
-- The two wrappers are modelled over a heap, a list of objects by their addresses (Boxes): a call that
-- gives something away puts it on the heap, and one that is handed a pointer to nothing, or to an
-- object of another kind, is undefined, as is a buffer that is freed with a wrong length. No address is
-- handed out twice; what a call does with an address that is free again is not claimed.
--
-- Base      names of the library passed on, Boolean tests, lists over native numbers, system calls
-- Hyper     constants and enums of lib/rust/hyper/hyper.h
--   Calls   the functions of hyper.h and of the C library as events, and the handles they pass
--   Ledger  which handles a call makes, takes and uses; what is alive; safe logs
--   Env     the answers of hyper and of the system, and the laws
--   Sample  a peer that satisfies the laws, for runs; Prompt has one that never makes it wait
-- Boxes     objects by their addresses: find, remove, replace
-- World     the state, and actions on it: call, ask, create, branch
-- Conn      read_cb, write_cb, free_conn_data, and the wait at the end of a round of the loop
-- Connect   connect_to: socket_result is the body of its loop, try_addresses the loop
-- Exchange  how far an exchange has come, read off the log; Reactions counts what hyper did, Success
--           says when all went well
-- Client    main of client.c, cut at its branches: set_up (163-188), the handlers on_handshake,
--           on_send and on_resp_body of the switch, fail for the label, step and run for the loops;
--           Prepare holds its types, callbacks and set_up, Handlers the cases and the label
-- Upload    main of upload.c cut in the same way, with poll_req_upload_cb and print_informational_cb
--           in Body and the cases of the switch in Handlers
-- HyperClient  rust/hyper/_demo/hyper_client/hyper.go: prepare (35-50), set_up (56-75), step and run for
--           the loops of Get, show for the rest of main
--   State   the state, panics, and actions; Memory the blocks, Blocks what copying into one gives
--   Transport  ReadCallBack, WriteCallBack, FreeConnData (free_wakers), and the wait for the socket
--   Sockets ConnectTo: try_socket is the body of its loop
--   Body    AppendToResponseBody, PrintBody, PrintEachHeader (print_header)
--   Handlers   the cases of the switch, cut where they test the task's type, and fail
--   Agrees  the callbacks and ConnectTo beside those of client.c
--   Collected  what one chunk does to the body; Keeps holds which actions leave it alone, Gathers is
--           about a whole run, Printed about what main prints
--   Awaited which task is waited for; Stages and Returns count requests and steps with it
--   Calm    which actions do not panic; Succeeds is about a peer that reports no error, Unexpected
--           about a task of another type than is awaited
-- Csv       the functions of csv-wrapper/src/lib.rs over a heap of readers and strings
--   Demo    main of csv-wrapper/test/main.c: print_file is its `if`, print_records its loop
--   Printed what the program prints, and its heap at the end
--   Go      main of rust/csv/_demo/csvdemo/csv.go
-- Sled      the functions of sled/src/lib.rs that take a configuration or a database, and iterators
--   Crate   the sled crate as a parameter, with what is relied on
--   Memory  the heap, the monad of calls, and the functions that free
--   Go      the functions of rust/sled/sled.go on byte slices and on strings, and Value.Free;
--           Forms has each pair of them as one
--   Demo    main of rust/sled/_demo/sleddemo/sled.go
--   Session a client of Go, and the map that it works with; Refines relates them
--   Buffers reading a leaked buffer and giving it back; Roundtrip sets a key and gets it, Scan reads
--           all pairs under a prefix
--   Calls   any program, as the calls that it makes; Leads has rules for actions, Held is about
--           what no call takes
--   Bare    CASBytes and CASString without an `actual`
--
-- In Client and Upload, Ownership is about who owns what after each handler, Progress about how far
-- the exchange has come, Loop and Run about a step, Main about the whole program. Start is about
-- the set-up of a run, Upload.Whole about the way from there to the loop. Upload.Content is about
-- calls of the data callback one after another, Upload.Sent about the bytes of the file over a whole
-- run; Upload.Transfers holds which actions leave them alone. The modules Examples hold runs.
--
-- The functions that the two C files hold word for word alike are modelled once, in Conn, Connect
-- and Client; Upload.Shared names them for upload.c. `assert` ends the program (NDEBUG is not set). `malloc` succeeds, as the programs
-- assume. The descriptor is assumed to fit an fd_set. The result of `write` to the standard output
-- is not read by the programs and not modelled. `argv` is without the program's name. An output of
-- `printf` does not fail. What the informational callback is handed is lent to it. The keys and values
-- that a call of the C interface of sled is handed are valid slices; the Go package may hand over a
-- NULL pointer, that of a nil slice or of an empty string, and that is undefined. So is a path that
-- does not come from `CString::into_raw`, as that of strdup. The log of the Go client leaves out the
-- questions for a task's type and userdata, since who owns what is not followed there. Not modelled: hyper
-- itself, the csv and sled crates, the OpenDAL bindings (a copy of another project), the Go package
-- for opendal with its demos, and the declarations of the other Go packages. In the Go client, what a
-- conversion of a pointer to an array does at nil is that of the Go specification, the struct ConnData
-- is the garbage collector's, and a `uintptr` has 64 bits.
pub mod Base
pub mod Boxes
pub mod Client
pub mod Conn
pub mod Connect
pub mod Csv
pub mod Exchange
pub mod Hyper
pub mod Sled
pub mod Upload
pub mod World
pub mod HyperClient
