-- ===== src/Session.antt =====
-- iperfwrapperlib/iperf/src: the control connection between a client (iperf_client_api.c) and a
-- server (iperf_server_api.c). A routine is a program of the operations below: what the kernel, the
-- peer and the other routines answer is an argument of what follows. A message is what one side
-- writes at once and the other reads at once; that a stream socket is opened is one too.
pub mod Client
pub mod Server
pub mod System
pub mod Errors
use mm_wave_tracker.Prelude.{ℕ, Bool, true, false, if◌then◌else◌}
use mm_wave_tracker.Prelude.Int.{ℤ}
use mm_wave_tracker.Config.{Mode, sender, receiver, bidirectional}
use mm_wave_tracker.Config.Errno.{
  iesendmessage, iesendparams, ierecvparams, iesendresults, ierecvresults, iectrlwrite,
}
use mm_wave_tracker.Config.State.{create_streams, server_error}

-- What travels on the control connection. Of the parameters, what the session depends on.
pub data Message : Type 0 where
  cookie : Message
  state : ℤ → Message
  parameters : Mode → ℤ → Message
  results : Message
  word : ℤ → Message
  stream : Message

pub data Kind : Type 0 where
  a_cookie a_state the_parameters the_results a_word a_stream : Kind

abbrev pub kind : Message → Kind
kind cookie = a_cookie
kind (state s) = a_state
kind (parameters m n) = the_parameters
kind results = the_results
kind (word n) = a_word
kind stream = a_stream

abbrev pub the_mode : Message → Mode → Mode
the_mode (parameters m n) d = m
the_mode _ d = d

abbrev pub the_number : Message → ℤ → ℤ
the_number (parameters m n) d = n
the_number (state n) d = n
the_number (word n) d = n
the_number _ d = d

-- Routines that a session calls, which may fail, and those that only act.
pub data Act : Type 0 where
  dial accept deny set_affinity listen announce init_test create_timers create_omit_timer : Act
  create_send_timers send_data recv_data accept_stream check_open new_stream : Act
  on_connect on_new_stream on_test_finish reporter_callback stats_callback cpu_util : Act
  set_nonblocking unset_nonblocking close_streams close_control close_listener : Act
  close_prot_listener run_timers cleanup_server : Act

-- A failure leaves `i_errno` and `errno`.
pub data Outcome : Type 0 where
  success : Outcome
  failure : ℤ → ℤ → Outcome

pub data Reply : Type 0 where
  got : Message → Reply
  closed failed : Reply

-- What `select` says: an error, nothing, or whether the listener, the control socket and the
-- listener of streams can be read, and whether a timer is due.
pub data Ready : Type 0 where
  select_failed timed_out : Ready
  ready : Bool → Bool → Bool → Bool → Ready

-- What a round of sending, receiving and timers leaves in the test.
pub record Progress : Type 0 where
  pub done : ℤ
  pub omitting : ℤ
  pub bytes_sent : ℕ
  pub blocks_sent : ℕ

-- The fields of `struct iperf_test` on which a session depends, the locals of the two loops,
-- `i_errno` and `errno`. `connected` is `ctrl_sck != -1`.
pub record Party : Type 0 where
  pub is_client : Bool
  pub state : ℤ
  pub mode : Mode
  pub protocol_id : ℤ
  pub num_streams : ℤ
  pub duration : ℤ
  pub bytes : ℕ
  pub blocks : ℕ
  pub no_delay : ℤ
  pub mss : ℤ
  pub socket_bufsize : ℤ
  pub server_affinity : ℤ
  pub progress : Progress
  pub connected : Bool
  pub startup : Bool
  pub rec_streams_accepted : ℤ
  pub send_streams_accepted : ℤ
  pub streams_to_rec : ℤ
  pub streams_to_send : ℤ
  pub flag : ℤ
  pub i_errno : ℤ
  pub errno : ℤ

-- `returns` is a return from a pass of the main loop: whether it goes on.
pub data Program : Type 0 where
  returns : Bool → Party → Program
  write : Message → (Bool → Program) → Program
  read : Kind → (Reply → Program) → Program
  call : Act → (Outcome → Program) → Program
  act : Act → Program → Program
  look : (Progress → Program) → Program
  select : (Ready → Program) → Program

-- What follows a routine: whether it returned 0, and the test.
abbrev pub Next : Type 0
Next = Bool → Party → Program

abbrev pub fails : ℤ → Party → Party
fails e t = record t { i_errno = e }

-- A call whose failure ends the caller.
abbrev pub attempt : Act → Party → (Party → Program) → (Party → Program) → Program
attempt a t otherwise next = call a (λ o. elim o [
  | success ↦ next t
  | failure e n ↦ otherwise (record t { i_errno = e; errno = n })
])

-- A write whose failure ends the caller with a code.
abbrev pub deliver : Message → ℤ → Party → (Party → Program) → (Party → Program) → Program
deliver m e t otherwise next = write m (λ sent. if sent then next t else otherwise (fails e t))

-- A read that gives a negative count ends the caller with a code. One that gives less than was asked
-- for is taken for such.
abbrev pub receive : Kind → ℤ → Party → (Party → Program) → (Message → Program) → Program
receive k e t otherwise next = read k (λ r. elim r [
  | got m ↦ next m
  | closed ↦ otherwise (fails e t)
  | failed ↦ otherwise (fails e t)
])

unfoldable pub iperf_set_send_state : ℤ → Party → Next → Program
iperf_set_send_state s t next =
    deliver (state s) iesendmessage (record t { state = s }) (next false) (next true)

-- The mode of the other side.
abbrev pub opposite : Mode → Mode
opposite sender = receiver
opposite receiver = sender
opposite bidirectional = bidirectional

-- `listen` of the protocol failed: the client is told the two codes.
unfoldable pub report_listen_error : Party → Next → Program
report_listen_error t next = iperf_set_send_state server_error t (λ ok t1.
    if ok
    then deliver (word t1.i_errno) iectrlwrite t1 (next false)
        (λ t2. deliver (word t2.errno) iectrlwrite t2 (next false) (next false))
    else next false t1)

unfoldable pub iperf_exchange_parameters : Party → Next → Program
iperf_exchange_parameters t next =
    if t.is_client
    then deliver (parameters t.mode t.num_streams) iesendparams t (next false) (next true)
    else receive the_parameters ierecvparams t (next false) (λ m.
      let t1 = record t {
        mode = opposite (the_mode m t.mode);
        num_streams = the_number m t.num_streams;
      } in
      attempt listen t1 (λ t2. report_listen_error t2 next)
        (λ t2. iperf_set_send_state create_streams t2 next))

unfoldable pub iperf_exchange_results : Party → Next → Program
iperf_exchange_results t next =
    if t.is_client
    then deliver results iesendresults t (next false)
        (λ t1. receive the_results ierecvresults t1 (next false) (λ m. next true t1))
    else receive the_results ierecvresults t (next false)
        (λ m. deliver results iesendresults t (next false) (next true))
