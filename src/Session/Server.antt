-- ===== src/Session/Server.antt =====
-- iperf_server_api.c: `iperf_accept`, `iperf_handle_message_server` and the main loop of
-- `iperf_run_server`, without the choice of a congestion control.
use mm_wave_tracker.Prelude.{Bool, true, false, not, ◌&&◌, ◌||◌, if◌then◌else◌}
use mm_wave_tracker.Prelude.Int.{ℤ, pos, negsuc, ◌+ℤ◌, eqb_ℤ, truthy}
use mm_wave_tracker.Config.{sender, receiver, bidirectional}
use mm_wave_tracker.Config.Codes.{ptcp, pudp}
use mm_wave_tracker.Config.Errno.{
  iectrlclose, ierecvmessage, ieclientterm, iemessage, ieselect, ieaccept, ierecvcookie, ielisten,
  iesendmessage,
}
use mm_wave_tracker.Config.State.{
  param_exchange, create_streams, test_start, test_running, test_end, exchange_results,
  display_results, iperf_done, client_terminate,
}
use mm_wave_tracker.Session.{
  Party, Program, Next, fails, attempt, iperf_set_send_state, iperf_exchange_parameters,
  iperf_exchange_results, the_number, a_cookie, a_state, a_stream, got, closed, failed,
  select_failed, timed_out, ready, returns, read, act, select, call, success, failure,
}
use mm_wave_tracker.Session.{
  accept, deny, set_affinity, announce, init_test, create_timers, create_omit_timer,
  create_send_timers, send_data, recv_data, check_open, new_stream, on_connect, on_new_stream,
  on_test_finish, reporter_callback, stats_callback, cpu_util, set_nonblocking, close_streams,
  close_listener, close_prot_listener, run_timers, cleanup_server,
}
use mm_wave_tracker.Session.Client.{is_receiver}

-- A pass that ends the server.
abbrev pub stop : Party → Program
stop t = act cleanup_server (returns false t)

-- `iperf_accept` for a free server, after the cookie: which, cut short, is not missed.
unfoldable pub after_cookie : Party → Next → Program
after_cookie t next = iperf_set_send_state param_exchange t (λ ok t1.
    if ok
    then iperf_exchange_parameters t1 (λ ok2 t2.
      if ok2
      then if eqb_ℤ t2.server_affinity (negsuc 0)
        then act on_connect (next true t2)
        else attempt set_affinity t2 (next false) (λ t3. act on_connect (next true t3))
      else next false t2)
    else next false t1)

-- `iperf_accept`: a server with a client turns others away.
unfoldable pub iperf_accept : Party → Next → Program
iperf_accept t next =
    attempt accept t (λ t1. next false (fails ieaccept t1))
      (λ t1.
        if t1.connected
        then attempt deny t1 (λ t2. next false (fails iesendmessage t2)) (next true)
        else (let t2 = record t1 { connected = true } in
            read a_cookie (λ r. elim r [
              | failed ↦ next false (fails ierecvcookie t2)
              | closed ↦ after_cookie t2 next
              | got m ↦ after_cookie t2 next
            ])))

-- The numbers of streams to wait for, from the mode of the test.
unfoldable pub set_streams_number : Party → Party
set_streams_number t = elim t.mode [
  | bidirectional ↦ record t { streams_to_send = t.num_streams; streams_to_rec = t.num_streams }
  | receiver ↦ record t { streams_to_rec = t.num_streams; streams_to_send = pos 0 }
  | sender ↦ record t { streams_to_send = t.num_streams; streams_to_rec = pos 0 }
]

-- The case TEST_END.
unfoldable pub on_test_end : Party → Next → Program
on_test_end t next = act cpu_util (
    act stats_callback (
      act close_streams (
        act reporter_callback (
          iperf_set_send_state exchange_results
            (record t { progress = record (t.progress) { done = pos 1 } })
            (λ ok t1.
              if ok
              then iperf_exchange_results t1 (λ ok2 t2.
                if ok2
                then iperf_set_send_state display_results t2
                    (λ ok3 t3. if ok3 then act on_test_finish (next true t3) else next false t3)
                else next false t2)
              else next false t1)))))

-- The `switch` of `iperf_handle_message_server`.
unfoldable pub dispatch_server : ℤ → Party → Next → Program
dispatch_server s t next =
    if eqb_ℤ s test_start
    then next true t
    else if eqb_ℤ s test_end
    then on_test_end t next
    else if eqb_ℤ s iperf_done
    then next true t
    else if eqb_ℤ s client_terminate
    then act cpu_util (
        act reporter_callback
          (act close_streams (next true (record t { i_errno = ieclientterm; state = iperf_done }))))
    else next false (fails iemessage t)

-- A client that closes the connection ends the session, which is no error.
unfoldable pub iperf_handle_message_server : Party → Next → Program
iperf_handle_message_server t next = read a_state (λ r. elim r [
  | closed ↦ next true (record t { i_errno = iectrlclose; state = iperf_done })
  | failed ↦ next false (fails ierecvmessage t)
  | got m ↦ let s = the_number m t.state in dispatch_server s (record t { state = s }) next
])

-- Which kind of stream a new connection is for. The flag keeps its value if none is missing.
unfoldable pub count_stream : Party → Party
count_stream t =
    if not (eqb_ℤ t.rec_streams_accepted t.streams_to_rec)
    then record t { flag = pos 0; rec_streams_accepted = t.rec_streams_accepted +ℤ pos 1 }
    else if not (eqb_ℤ t.send_streams_accepted t.streams_to_send)
    then record t { flag = pos 1; send_streams_accepted = t.send_streams_accepted +ℤ pos 1 }
    else t

-- A stream that was accepted and is open.
unfoldable pub add_stream : Party → (Party → Program) → Program
add_stream t next =
    if eqb_ℤ t.flag (negsuc 0)
    then next t
    else attempt new_stream t stop (λ t1.
      let rest = act on_new_stream (next (record t1 { flag = negsuc 0 })) in
      if not (eqb_ℤ t1.protocol_id pudp) || not (truthy t1.flag)
      then act set_nonblocking rest
      else rest)

-- The protocol accepts a stream, which is dropped if it is closed already.
unfoldable pub take_stream : Party → (Party → Program) → Program
take_stream t next = read a_stream (λ r. elim r [
  | failed ↦ stop t
  | closed ↦ stop t
  | got m ↦
      call check_open
        (λ o. elim o [ success ↦ add_stream (count_stream t) next | failure e n ↦ next t ])
])

-- The listener of streams is closed, and for TCP with its own options opened again.
unfoldable pub reopen_listener : Party → (Party → Program) → Program
reopen_listener t next =
    if not (eqb_ℤ t.protocol_id ptcp)
    then act close_prot_listener (next t)
    else if truthy t.no_delay || (truthy t.mss || truthy t.socket_bufsize)
    then act close_listener
        (attempt announce t (λ t1. act cleanup_server (returns false (fails ielisten t1))) next)
    else next t

-- The test starts, its timers are made, and it runs.
unfoldable pub start_running : (Party → Program) → Party → Program
start_running next t = iperf_set_send_state test_start t (λ ok t1.
    if ok
    then attempt init_test t1 stop (λ t2. attempt create_timers t2 stop (λ t3.
      attempt create_omit_timer t3 stop (λ t4.
        let run = λ (t5 : Party).
          iperf_set_send_state test_running t5 (λ ok2 t6. if ok2 then next t6 else stop t6) in
        if is_receiver t4.mode then run t4 else attempt create_send_timers t4 stop run)))
    else stop t1)

-- All streams are there.
unfoldable pub start_test : Party → (Party → Program) → Program
start_test t next = reopen_listener t (start_running next)

unfoldable pub start_if_complete : Party → (Party → Program) → Program
start_if_complete t next =
    if eqb_ℤ t.rec_streams_accepted t.streams_to_rec
      && eqb_ℤ t.send_streams_accepted t.streams_to_send
    then start_test t next
    else next t

-- The end of a pass in TEST_RUNNING. The timers run only when one is due.
unfoldable pub server_data : Bool → Party → Program
server_data due t =
    let finish =
      λ (t1 : Party). if due then act run_timers (returns true t1) else returns true t1 in
    if eqb_ℤ t.state test_running
    then elim t.mode [
      | bidirectional ↦ attempt recv_data t stop (λ t1. attempt send_data t1 stop finish)
      | sender ↦ attempt send_data t stop finish
      | receiver ↦ attempt recv_data t stop finish
    ]
    else finish t

-- The part of a pass in CREATE_STREAMS, and what follows.
unfoldable pub server_streams : Bool → Bool → Party → Program
server_streams streams due t =
    if eqb_ℤ t.state create_streams
    then if streams
      then take_stream t (λ t1. start_if_complete t1 (server_data due))
      else start_if_complete t (server_data due)
    else server_data due t

unfoldable pub server_control : Bool → Bool → Bool → Party → Program
server_control control streams due t =
    if control
    then iperf_handle_message_server t
        (λ ok t1. if ok then server_streams streams due t1 else stop t1)
    else server_streams streams due t

-- One pass of the loop of `iperf_run_server`, which ends when the state is IPERF_DONE.
unfoldable pub server_pass : Party → Program
server_pass t = select (λ r. elim r [
  | select_failed ↦ stop (fails ieselect t)
  | timed_out ↦ act run_timers (returns true t)
  | ready listener control streams due ↦
      if listener && not (eqb_ℤ t.state create_streams)
      then iperf_accept t (λ ok t1.
        if ok then server_control control streams due (set_streams_number t1) else stop t1)
      else server_control control streams due t
])
