-- ===== src/Lib.antt =====
-- The measuring engine of mmWaveTracker: the iperf3 library under iperfwrapperlib/iperf/src, as it is
-- built for Android, and the native methods of iperfwrapperlib/src/main/cpp/test_run.c by which the
-- application sets up a test.
--
-- A test is a structure that Java makes, fills in by the native methods and runs. A run exchanges
-- parameters and control messages with a server, moves data over streams, and is driven by timers. The files:
-- + Prelude: Boolean tests, lists, signed integers, words, octets; `double` as an interface.
-- + Time: iperf_time.c. A stamp is two unsigned 32-bit words; all arithmetic wraps as written.
-- + Timer: timer.c. The two linked lists are lists, a pointer to a timer is its address, and the
--   clock and `malloc` are arguments. `tmr_run` goes along `next` pointers that callbacks may change,
--   so it runs on fuel: the total lag of the timers bounds it. A callback may reset and cancel timers.
--   To reset or cancel a timer that is not active is `none`, and so is to cancel one that `tmr_run`
--   goes on with: the lists of C are then not well formed.
-- + Net: Nread, Nwrite, Nsendfile, setnonblocking and timeout_connect of net.c over a kernel that is
--   a state with system calls; fuel is the count of bytes, since each call that does not end the loop
--   moves one byte at least.
-- + Units: reading of numbers with a suffix in units.c.
-- + Config: the structures of iperf.h, the constants of iperf_api.h, and from iperf_api.c the
--   getters and setters (`iperf_get_*`, `iperf_set_*`), `set_protocol`, `iperf_new_test` and
--   `iperf_defaults`.
-- + Udp: iperf_udp_send and iperf_udp_recv of iperf_udp.c, with the header of a datagram and the
--   counters of loss and order.
-- + Jni: the native methods of test_run.c that configure a test, as calls on a session.
-- + Stream: iperf_send, iperf_recv and iperf_check_throttle of iperf_api.c. The functions that a
--   stream points to are arguments; sets of descriptors are lists; the rounds are counted down.
-- + Exchange: send_parameters and get_parameters of iperf_api.c. cJSON is an interface of objects
--   with items that are added and looked up, with numbers that pass
--   through a `double`; the debugging output and the report are left out.
-- + Client: of iperf_client_api.c, iperf_create_streams, where to connect and to make a stream are
--   arguments, and create_client_timers and create_client_omit_timer, over the lists of timer.c.
-- + Session: the control connection: iperf_set_send_state, iperf_exchange_parameters and
--   iperf_exchange_results of iperf_api.c, and in Client and Server the handling of messages and the
--   loops of iperf_client_api.c and iperf_server_api.c. A routine is a tree of operations, whose
--   branches are what the kernel, the peer and the routines it calls may answer, so a loop needs no
--   fuel: one pass of it is a tree. System has both sides with a queue of messages each way and a step
--   relation: any order of steps, any readiness that the queues allow, any progress of the data. A
--   message is an octet of state, a document, an error word, a cookie or a new stream; that
--   sockets of streams are opened is kept in the same queue as the messages, and the server's timer of
--   last resort, which closes the connection, does not fire.
-- + Dscp: parse_qos and iptos2str of dscp.c. Prelude/Strtol has strtol and atoi.
-- + Arguments: iperf_parse_arguments of iperf_api.c over the flags that getopt_long gives.
-- + Strerror: iperf_strerror of iperf_error.c; the texts of strerror and gai_strerror are arguments.
-- + Exchange/Frame: JSON_write and JSON_read over Nwrite and Nread, which Net/Whole describes for a
--   connection that is up.
-- + Server: create_server_timers, create_server_omit_timer and server_timer_proc of
--   iperf_server_api.c.
-- + Results: send_results and get_results of iperf_api.c. The document is what cJSON finds under each
--   name; a `double` that is written is taken to be finite, so that it is read as it was.
--
-- A `double` is an element of a type with operations and no laws, so nothing is said of rounding.
-- Options of the build: no SSL, SCTP, flow label, CPU affinity or TCP congestion control, with
-- sendfile. A NULL pointer that is followed and an uninitialised value that is used are `none`.
-- Not modelled: the set-up of sockets, the printing of results and reports, the Java
-- application, and the C++ receiver; cJSON and the BSD queues are other projects' code. Overflow of an `int` counter
-- that C leaves undefined is not wrapped.
pub mod Prelude
pub mod Time
pub mod Timer
pub mod Net
pub mod Units
pub mod Config
pub mod Udp
pub mod Jni
pub mod Stream
pub mod Exchange
pub mod Client
pub mod Session
pub mod Dscp
pub mod Arguments
pub mod Strerror
pub mod Server
pub mod Results
