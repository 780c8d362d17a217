-- ===== src/Session/Client.antt =====
-- iperf_client_api.c: `iperf_handle_message_client`, `iperf_client_end`, the connection of the
-- control socket in `iperf_connect` and the main loop of `iperf_run_client`.
use mm_wave_tracker.Prelude.{
  ℕ, zero, suc, Bool, true, false, not, ◌&&◌, ◌||◌, ◌==◌, leb, if◌then◌else◌,
}
use mm_wave_tracker.Prelude.Int.{ℤ, pos, pos_part, eqb_ℤ, truthy}
use mm_wave_tracker.Config.{Mode, sender, receiver, bidirectional}
use mm_wave_tracker.Config.Codes.{pudp}
use mm_wave_tracker.Config.Errno.{
  iectrlclose, ierecvmessage, ieserverterm, ieaccessdenied, iectrlread, iemessage, ieselect,
  iesendcookie, ieconnect, iestreamconnect,
}
use mm_wave_tracker.Config.State.{
  param_exchange, create_streams, test_start, test_running, test_end, exchange_results,
  display_results, iperf_done, server_terminate, access_denied, server_error,
}
use mm_wave_tracker.Session.{
  Progress, Party, Program, Next, fails, attempt, deliver, receive, iperf_set_send_state,
  iperf_exchange_parameters, iperf_exchange_results, the_number, cookie, stream, a_state, a_word,
  got, closed, failed, select_failed, timed_out, ready, returns, read, act, look, select,
}
use mm_wave_tracker.Session.{
  dial, init_test, create_timers, create_omit_timer, create_send_timers, send_data, recv_data,
  on_connect, on_test_finish, reporter_callback, stats_callback, cpu_util, set_nonblocking,
  unset_nonblocking, close_streams, close_control, run_timers,
}

-- `iperf_create_streams` as far as the server sees it: as many streams are connected.
unfoldable pub connect_streams : ℕ → Party → Next → Program
connect_streams zero t next = next true t
connect_streams (suc n) t next =
    deliver stream iestreamconnect t (next false) (λ t1. connect_streams n t1 next)

-- The case CREATE_STREAMS: a bidirectional test opens the streams that send, and as many more.
unfoldable pub on_create_streams : Party → Next → Program
on_create_streams t next = elim t.mode [
  | bidirectional ↦
      connect_streams (pos_part t.num_streams) t
        (λ ok t1. if ok then connect_streams (pos_part t1.num_streams) t1 next else next false t1)
  | sender ↦ connect_streams (pos_part t.num_streams) t next
  | receiver ↦ connect_streams (pos_part t.num_streams) t next
]

-- Whether a mode is not 0: RECEIVER is.
abbrev is_sending : Mode → Bool
is_sending receiver = false
is_sending _ = true

-- The case TEST_START.
unfoldable pub on_test_start : Party → Next → Program
on_test_start t next = attempt init_test t (next false) (λ t1.
    attempt create_timers t1 (next false) (λ t2. attempt create_omit_timer t2 (next false) (λ t3.
      if is_sending t3.mode
      then attempt create_send_timers t3 (next false) (next true)
      else next true t3)))

unfoldable pub iperf_client_end : Party → Next → Program
iperf_client_end t next = act close_streams (
    act reporter_callback (
      iperf_set_send_state iperf_done t
        (λ ok t1. if ok then act close_control (next true t1) else next false t1)))

-- The case SERVER_ERROR: the two codes that the server sends. A word that is cut short is taken for
-- one that cannot be read.
unfoldable pub on_server_error : Party → Next → Program
on_server_error t next = receive a_word iectrlread t (next false) (λ m1.
    let t1 = fails (the_number m1 t.i_errno) t in
    receive a_word iectrlread t1 (next false)
      (λ m2. next false (record t1 { errno = the_number m2 t1.errno })))

-- The `switch` of `iperf_handle_message_client`. What `iperf_client_end` returns is dropped.
unfoldable pub dispatch_client : ℤ → Party → Next → Program
dispatch_client s t next =
    if eqb_ℤ s param_exchange
    then iperf_exchange_parameters t
        (λ ok t1. if ok then act on_connect (next true t1) else next false t1)
    else if eqb_ℤ s create_streams
    then on_create_streams t next
    else if eqb_ℤ s test_start
    then on_test_start t next
    else if eqb_ℤ s test_running
    then next true t
    else if eqb_ℤ s exchange_results
    then iperf_exchange_results t next
    else if eqb_ℤ s display_results
    then act on_test_finish (iperf_client_end t (λ ok t1. next true t1))
    else if eqb_ℤ s iperf_done
    then next true t
    else if eqb_ℤ s server_terminate
    then act cpu_util (act reporter_callback (next false (fails ieserverterm t)))
    else if eqb_ℤ s access_denied
    then next false (fails ieaccessdenied t)
    else if eqb_ℤ s server_error
    then on_server_error t next
    else next false (fails iemessage t)

unfoldable pub iperf_handle_message_client : Party → Next → Program
iperf_handle_message_client t next = read a_state (λ r. elim r [
  | closed ↦ next false (fails iectrlclose t)
  | failed ↦ next false (fails ierecvmessage t)
  | got m ↦ let s = the_number m t.state in dispatch_client s (record t { state = s }) next
])

abbrev pub is_receiver : Mode → Bool
is_receiver receiver = true
is_receiver _ = false

-- What a pass has moved: a client that only receives counts no bytes or blocks as sent.
unfoldable pub progressed : Mode → Progress → Progress → Progress
progressed m old new =
    if is_receiver m
    then record new { bytes_sent = old.bytes_sent; blocks_sent = old.blocks_sent }
    else new

-- Whether a running test is over.
unfoldable pub is_over : Party → Bool
is_over t =
    not (truthy t.progress.omitting)
    && ((not (eqb_ℤ t.duration (pos 0)) && truthy t.progress.done)
        || ((not (t.bytes == 0) && leb t.bytes t.progress.bytes_sent)
            || (not (t.blocks == 0) && leb t.blocks t.progress.blocks_sent)))

-- The sockets of the streams stay as they are for UDP.
abbrev pub unless_udp : Party → (Program → Program) → Program → Program
unless_udp t f p = if eqb_ℤ t.protocol_id pudp then p else f p

unfoldable pub move_data : Party → (Party → Program) → (Party → Program) → Program
move_data t otherwise next = elim t.mode [
  | bidirectional ↦ attempt send_data t otherwise (λ t1. attempt recv_data t1 otherwise next)
  | sender ↦ attempt send_data t otherwise next
  | receiver ↦ attempt recv_data t otherwise next
]

-- The end of a pass in TEST_RUNNING.
unfoldable pub finish_if_over : Party → Program
finish_if_over t =
    if is_over t
    then unless_udp t (act unset_nonblocking) (
        act cpu_util (
          act stats_callback (
            iperf_set_send_state test_end
              (record t { progress = record (t.progress) { done = pos 1 } })
              (λ ok t1. returns ok t1))))
    else returns true t

-- What a pass does after the control socket: in TEST_RUNNING, or while the data is drained.
unfoldable pub client_data : Party → Program
client_data t =
    if eqb_ℤ t.state test_running
    then (let rest =
          move_data (record t { startup = false }) (returns false)
            (λ t1. act run_timers (
              look (λ p.
                finish_if_over (record t1 { progress = progressed t1.mode t1.progress p })))) in
        if t.startup then unless_udp t (act set_nonblocking) rest else rest)
    else if is_receiver t.mode && eqb_ℤ t.state test_end
    then attempt recv_data t (returns false) (returns true)
    else returns true t

-- One pass of the loop of `iperf_run_client`, which ends when the state is IPERF_DONE.
unfoldable pub client_pass : Party → Program
client_pass t = select (λ r. elim r [
  | select_failed ↦ returns false (fails ieselect t)
  | timed_out ↦ client_data t
  | ready listener control streams due ↦
      if control
      then iperf_handle_message_client t (λ ok t1. if ok then client_data t1 else returns false t1)
      else client_data t
])

-- `iperf_connect` before the loop; the size of blocks that it may choose is left out.
unfoldable pub iperf_connect : Party → Program
iperf_connect t =
    attempt dial t (λ t1. returns false (fails ieconnect t1))
      (λ t1. deliver cookie iesendcookie t1 (returns false) (returns true))
