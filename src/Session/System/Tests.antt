-- ===== src/Session/System/Tests.antt =====
-- A session with two streams.
use mm_wave_tracker.Prelude.{true, false, ◌≡◌, refl, inl}
use mm_wave_tracker.Prelude.Int.{pos, negsuc}
use mm_wave_tracker.Config.{sender, receiver}
use mm_wave_tracker.Config.Codes.{ptcp}
use mm_wave_tracker.Session.{Progress, Party, Act, Outcome, listen, failure, success, returns}
use mm_wave_tracker.Session.Errors.{refusal, run, listen_error_arrives}
use mm_wave_tracker.Config.State.{server_error}
use mm_wave_tracker.Session.Client.{client_pass, iperf_handle_message_client}
use mm_wave_tracker.Session.Server.{server_pass}
use mm_wave_tracker.Session.System.{System, Reach, here}
use mm_wave_tracker.Session.System.Scripts.{Plan}
use mm_wave_tracker.Session.System.Meet.{IsCompleted}
use mm_wave_tracker.Session.System.Complete.{
  opened, IsOnTrack, session-IsOnTrack, session_completes,
}

abbrev two_streams : Plan
two_streams = record { mode = sender; num_streams = 2; duration = pos 10; bytes = 0; blocks = 0 }

abbrev nothing_sent : Progress
nothing_sent = record { done = pos 0; omitting = pos 0; bytes_sent = 0; blocks_sent = 0 }

abbrev someone : Party
someone = record {
  is_client = true;
  state = pos 0;
  mode = receiver;
  protocol_id = ptcp;
  num_streams = pos 1;
  duration = pos 10;
  bytes = 0;
  blocks = 0;
  no_delay = pos 0;
  mss = pos 0;
  socket_bufsize = pos 0;
  server_affinity = negsuc 0;
  progress = nothing_sent;
  connected = true;
  startup = true;
  rec_streams_accepted = pos 0;
  send_streams_accepted = pos 0;
  streams_to_rec = pos 0;
  streams_to_send = pos 0;
  flag = negsuc 0;
  i_errno = pos 0;
  errno = pos 0;
}

session-IsOnTrack_example :
    let s = opened two_streams someone someone in
    IsOnTrack s.left.program s.left.inbox × IsOnTrack s.right.program s.right.inbox
session-IsOnTrack_example = session-IsOnTrack two_streams someone someone here

session_completes_example :
    (t : System) × Reach client_pass server_pass (opened two_streams someone someone) t
    × IsCompleted t
session_completes_example = session_completes two_streams someone someone (inl refl) here

abbrev cannot_listen : Act → Outcome
cannot_listen listen = failure (pos 122) (pos 98)
cannot_listen _ = success

listen_error_arrives_example :
    ((t' : Party) × ((refusal cannot_listen sender (pos 2) someone).1 ≡ returns false t'))
    × ((run cannot_listen
          (iperf_handle_message_client someone returns)
          (refusal cannot_listen sender (pos 2) someone).0).1
        ≡ returns false
            (record someone { state = server_error; i_errno = pos 122; errno = pos 98 }))
listen_error_arrives_example =
    listen_error_arrives cannot_listen cannot_listen sender (pos 2) (pos 122) (pos 98) someone
      someone refl
