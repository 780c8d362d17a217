-- ===== src/Session/Errors.antt =====
-- How a failure on one side of a session reaches the other.
use mm_wave_tracker.Prelude.{true, false, List, [], ◌∷◌, ◌≡◌, refl, arith}
use mm_wave_tracker.Prelude.Int.{ℤ}
use mm_wave_tracker.Config.{Mode}
use mm_wave_tracker.Config.State.{server_error}
use mm_wave_tracker.Session.{
  Message, Act, Outcome, Party, Program, got, failure, returns, write, read, call, act, look,
  select, state, parameters, word, listen, opposite, iperf_set_send_state, report_listen_error,
  iperf_exchange_parameters,
}
use mm_wave_tracker.Session.Client.{iperf_handle_message_client, dispatch_client, on_server_error}

-- A program by itself, with what it may read and how calls end: what it writes, and where it stops.
unfoldable pub run : (Act → Outcome) → Program → List Message → List Message × Program
run f (write m k) inbox = let (out, p) = run f (k true) inbox in (m ∷ out, p)
run f (read a k) [] = ([], read a k)
run f (read a k) (m ∷ ms) = run f (k (got m)) ms
run f (call a k) inbox = run f (k (f a)) inbox
run f (act a p) inbox = run f p inbox
run f (returns ok t) inbox = ([], returns ok t)
run f (look k) inbox = ([], look k)
run f (select k) inbox = ([], select k)

-- What a server writes when it has read the parameters and the protocol cannot listen.
abbrev pub refusal : (Act → Outcome) → Mode → ℤ → Party → List Message × Program
refusal f m n t =
    run f (iperf_exchange_parameters (record t { is_client = false }) returns) (parameters m n ∷ [])

refused :
    (f : Act → Outcome) (m : Mode) (n e errno' : ℤ) (t : Party)
    → f listen ≡ failure e errno'
    → let t1 = record t {
      is_client = false;
      state = server_error;
      mode = opposite m;
      num_streams = n;
      i_errno = e;
      errno = errno';
    } in
      refusal f m n t ≡ (state server_error ∷ word e ∷ word errno' ∷ [], returns false t1)
unfolding run iperf_exchange_parameters report_listen_error iperf_set_send_state
refused f m n e errno' t h = ground arith

-- If a server's protocol cannot listen for streams, the server fails, and a client that handles what
-- the server then writes fails too, with the server's `i_errno` and `errno`.
pub listen_error_arrives :
    (f g : Act → Outcome) (m : Mode) (n e errno' : ℤ) (t u : Party)
    → f listen ≡ failure e errno'
    → ((t' : Party) × ((refusal f m n t).1 ≡ returns false t'))
      × ((run g (iperf_handle_message_client u returns) (refusal f m n t).0).1
          ≡ returns false (record u { state = server_error; i_errno = e; errno = errno' }))
unfolding run iperf_handle_message_client dispatch_client on_server_error
listen_error_arrives f g m n e errno' t u h = rw (refused f m n e errno' t h) ((_, refl), refl)
