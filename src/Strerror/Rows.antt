-- ===== src/Strerror/Rows.antt =====
-- iperfwrapperlib/iperf/src/iperf_error.c: the cases of the `switch` of `iperf_strerror`, with the limits
-- of iperf.h put in.
use mm_wave_tracker.Prelude.{Bool, true, false, List, [], ◌∷◌, ◌++◌}
use mm_wave_tracker.Prelude.Int.{ℤ}
use mm_wave_tracker.Config.Errno.{
  ienone, ieservclient, ienorole, ieserveronly, ieclientonly, ieduration, ienumstreams, ieblocksize,
  iebufsize, ieinterval, iebind, ieudpblocksize, iebadtos, iesetclientauth, iesetserverauth,
  iebadformat, iebadport, iemss, ienosendfile, ieomit, ieunimp, iefile, ieburst, ieendconditions,
  ielogfile, ienosctp, ienewtest, ieinittest, ieauthtest, ielisten, ieconnect, ieaccept,
  iesendcookie, ierecvcookie, iectrlwrite, iectrlread, iectrlclose, iemessage, iesendmessage,
  ierecvmessage, iesendparams, ierecvparams, iepackageresults, iesendresults, ierecvresults,
  ieselect, ieclientterm, ieserverterm, ieaccessdenied, iesetnodelay, iesetmss, iesetbuf, iesettos,
  iesetcos, iesetflow, iereuseaddr, ienonblocking, iesetwindowsize, ieprotocol, ieaffinity,
  iedaemon, iecreatestream, ieinitstream, iestreamlisten, iestreamconnect, iestreamaccept,
  iestreamwrite, iestreamread, iestreamclose, iestreamid, ienewtimer, ieupdatetimer,
  iesetcongestion, iepidfile, iev6only, iesetsctpdisablefrag, iesetsctpnstream, iesetpacing,
  iesetbuf2, iereversebidir,
}
use Prim.Native.String.{String}

-- A case: the code, whether `perr` and `herr` are set, and the message.
pub record Row : Type 0 where
  pub code : ℤ
  pub perr : Bool
  pub herr : Bool
  pub message : String

abbrev row : ℤ → Bool → Bool → String → Row
row c p h m = record { code = c; perr = p; herr = h; message = m }

-- The cases from IENONE on.
abbrev pub first_rows : List Row
first_rows =
    row ienone false false "no error"
    ∷ row ieservclient false false "cannot be both server and client"
    ∷ row ienorole false false "must either be a client (-c) or server (-s)"
    ∷ row ieserveronly false false "some option you are trying to set is server only"
    ∷ row ieclientonly false false "some option you are trying to set is client only"
    ∷ row ieduration false false "test duration too long (maximum = 86400 seconds)"
    ∷ row ienumstreams false false "number of parallel streams too large (maximum = 128)"
    ∷ row ieblocksize false false "block size too large (maximum = 1048576 bytes)"
    ∷ row iebufsize false false "socket buffer size too large (maximum = 536870912 bytes)"
    ∷ row ieinterval false false "invalid report interval (min = 0.1, max = 60 seconds)"
    ∷ row iebind false false "--bind must be specified to use --cport"
    ∷ row ieudpblocksize false false
        "block size invalid (minimum = 16 bytes, maximum = 65507 bytes)"
    ∷ row iebadtos false false "bad TOS value (must be between 0 and 255 inclusive)"
    ∷ row iesetclientauth false false
        "you must specify username (max 20 chars), password (max 20 chars) and a path to a valid public rsa client to be used"
    ∷ row iesetserverauth false false
        "you must specify path to a valid private rsa server to be used and a user credential file"
    ∷ row iebadformat false false "bad format specifier (valid formats are in the set [kmgtKMGT])"
    ∷ row iebadport false false "port number must be between 1 and 65535 inclusive"
    ∷ row iemss false false "TCP MSS too large (maximum = 9216 bytes)"
    ∷ row ienosendfile false false "this OS does not support sendfile"
    ∷ row ieomit false false "bogus value for --omit"
    ∷ row ieunimp false false "an option you are trying to set is not implemented yet"
    ∷ row iefile true false "unable to open -F file"
    ∷ row ieburst false false "invalid burst count (maximum = 1000)"
    ∷ row ieendconditions false false "only one test end condition (-t, -n, -k) may be specified"
    ∷ row ielogfile true false "unable to open log file"
    ∷ row ienosctp false false "no SCTP support available"
    ∷ row ienewtest true false "unable to create a new test"
    ∷ row ieinittest true false "test initialization failed"
    ∷ row ieauthtest false false "test authorization failed"
    ∷ row ielisten true true "unable to start listener for connections"
    ∷ row ieconnect true true "unable to connect to server"
    ∷ row ieaccept true true "unable to accept connection from client"
    ∷ row iesendcookie true false "unable to send cookie to server"
    ∷ row ierecvcookie true false "unable to receive cookie at server"
    ∷ row iectrlwrite true false "unable to write to the control socket"
    ∷ row iectrlread true false "unable to read from the control socket"
    ∷ row iectrlclose false false "control socket has closed unexpectedly"
    ∷ row iemessage false false "received an unknown control message"
    ∷ row iesendmessage true false "unable to send control message"
    ∷ row ierecvmessage true false "unable to receive control message"
    ∷ []

-- The other cases.
abbrev pub other_rows : List Row
other_rows =
    row iesendparams true false "unable to send parameters to server"
    ∷ row ierecvparams true false "unable to receive parameters from client"
    ∷ row iepackageresults true false "unable to package results"
    ∷ row iesendresults true false "unable to send results"
    ∷ row ierecvresults true false "unable to receive results"
    ∷ row ieselect true false "select failed"
    ∷ row ieclientterm false false "the client has terminated"
    ∷ row ieserverterm false false "the server has terminated"
    ∷ row ieaccessdenied false false "the server is busy running a test. try again later"
    ∷ row iesetnodelay true false "unable to set TCP/SCTP NODELAY"
    ∷ row iesetmss true false "unable to set TCP/SCTP MSS"
    ∷ row iesetbuf true false "unable to set socket buffer size"
    ∷ row iesettos true false "unable to set IP TOS"
    ∷ row iesetcos true false "unable to set IPv6 traffic class"
    ∷ row iesetflow false false "unable to set IPv6 flow label"
    ∷ row iereuseaddr true false "unable to reuse address on socket"
    ∷ row ienonblocking true false "unable to set socket to non-blocking"
    ∷ row iesetwindowsize true false "unable to set socket window size"
    ∷ row ieprotocol false false "protocol does not exist"
    ∷ row ieaffinity true false "unable to set CPU affinity"
    ∷ row iedaemon true false "unable to become a daemon"
    ∷ row iecreatestream true true "unable to create a new stream"
    ∷ row ieinitstream true true "unable to initialize stream"
    ∷ row iestreamlisten true true "unable to start stream listener"
    ∷ row iestreamconnect true true "unable to connect stream"
    ∷ row iestreamaccept true false "unable to accept stream connection"
    ∷ row iestreamwrite true false "unable to write to stream socket"
    ∷ row iestreamread true false "unable to read from stream socket"
    ∷ row iestreamclose false false "stream socket has closed unexpectedly"
    ∷ row iestreamid false false "stream has an invalid id"
    ∷ row ienewtimer true false "unable to create new timer"
    ∷ row ieupdatetimer true false "unable to update timer"
    ∷ row iesetcongestion false false
        "unable to set TCP_CONGESTION: Supplied congestion control algorithm not supported on this host"
    ∷ row iepidfile true false "unable to write PID file"
    ∷ row iev6only true false "Unable to set/reset IPV6_V6ONLY"
    ∷ row iesetsctpdisablefrag true false "unable to set SCTP_DISABLE_FRAGMENTS"
    ∷ row iesetsctpnstream true false "unable to set SCTP_INIT num of SCTP streams\n"
    ∷ row iesetpacing true false "unable to set socket pacing"
    ∷ row iesetbuf2 false false "socket buffer size not set correctly"
    ∷ row iereversebidir false false "cannot be both reverse and bidirectional"
    ∷ []

abbrev pub rows : List Row
rows = first_rows ++ other_rows
