-- ===== src/Strerror/Tests.antt =====
-- Messages with and without the texts of the C library.
use mm_wave_tracker.Prelude.{ℕ, ◌<◌, ◌≡◌, refl, List, [], length}
use mm_wave_tracker.Prelude.Int.{ℤ, pos}
use mm_wave_tracker.Prelude.Strtol.{codes}
use mm_wave_tracker.Config.Errno.{ieconnect, ieomit, iesetsctpbindx}
use mm_wave_tracker.Strerror.{errstr_size, find_row, explain, iperf_strerror}
use mm_wave_tracker.Strerror.Bounds.{strerror_fits}

abbrev refused : ℤ → List ℕ
refused n = codes "Connection refused"

abbrev unknown_host : ℤ → List ℕ
unknown_host n = codes "Name or service not known"

connection_refused :
    (iperf_strerror refused unknown_host ieconnect (pos 111) (pos 0)).0
    ≡ codes "unable to connect to server: Connection refused"
unfolding iperf_strerror find_row explain
connection_refused = refl

host_unknown :
    iperf_strerror refused unknown_host ieconnect (pos 0) (pos 8)
    ≡ (codes "unable to connect to server: Name or service not known", pos 0)
unfolding iperf_strerror find_row explain
host_unknown = refl

plain :
    (iperf_strerror refused unknown_host ieomit (pos 2) (pos 0)).0 ≡ codes "bogus value for --omit"
unfolding iperf_strerror find_row explain
plain = refl

-- The one code that is declared and has no case.
no_message : (iperf_strerror refused unknown_host iesetsctpbindx (pos 12) (pos 0)).0 ≡ []
unfolding iperf_strerror find_row explain
no_message = refl

strerror_fits_example :
    length (iperf_strerror refused unknown_host ieconnect (pos 111) (pos 0)).0 < errstr_size
strerror_fits_example = strerror_fits refused unknown_host ieconnect (pos 111) (pos 0)
