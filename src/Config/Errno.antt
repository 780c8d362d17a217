-- ===== src/Config/Errno.antt =====
-- The values of `i_errno` in iperf_api.h.
use mm_wave_tracker.Prelude.Int.{ℤ, pos}

abbrev pub ienone : ℤ
ienone = pos 0

abbrev pub ieservclient : ℤ
ieservclient = pos 1

abbrev pub ienorole : ℤ
ienorole = pos 2

abbrev pub ieserveronly : ℤ
ieserveronly = pos 3

abbrev pub ieclientonly : ℤ
ieclientonly = pos 4

abbrev pub ieduration : ℤ
ieduration = pos 5

abbrev pub ienumstreams : ℤ
ienumstreams = pos 6

abbrev pub ieblocksize : ℤ
ieblocksize = pos 7

abbrev pub iebufsize : ℤ
iebufsize = pos 8

abbrev pub ieinterval : ℤ
ieinterval = pos 9

abbrev pub iemss : ℤ
iemss = pos 10

abbrev pub ienosendfile : ℤ
ienosendfile = pos 11

abbrev pub ieomit : ℤ
ieomit = pos 12

abbrev pub ieunimp : ℤ
ieunimp = pos 13

abbrev pub iefile : ℤ
iefile = pos 14

abbrev pub ieburst : ℤ
ieburst = pos 15

abbrev pub ieendconditions : ℤ
ieendconditions = pos 16

abbrev pub ielogfile : ℤ
ielogfile = pos 17

abbrev pub ienosctp : ℤ
ienosctp = pos 18

abbrev pub iebind : ℤ
iebind = pos 19

abbrev pub ieudpblocksize : ℤ
ieudpblocksize = pos 20

abbrev pub iebadtos : ℤ
iebadtos = pos 21

abbrev pub iesetclientauth : ℤ
iesetclientauth = pos 22

abbrev pub iesetserverauth : ℤ
iesetserverauth = pos 23

abbrev pub iebadformat : ℤ
iebadformat = pos 24

abbrev pub iereversebidir : ℤ
iereversebidir = pos 25

abbrev pub iebadport : ℤ
iebadport = pos 26

abbrev pub ienewtest : ℤ
ienewtest = pos 100

abbrev pub ieinittest : ℤ
ieinittest = pos 101

abbrev pub ielisten : ℤ
ielisten = pos 102

abbrev pub ieconnect : ℤ
ieconnect = pos 103

abbrev pub ieaccept : ℤ
ieaccept = pos 104

abbrev pub iesendcookie : ℤ
iesendcookie = pos 105

abbrev pub ierecvcookie : ℤ
ierecvcookie = pos 106

abbrev pub iectrlwrite : ℤ
iectrlwrite = pos 107

abbrev pub iectrlread : ℤ
iectrlread = pos 108

abbrev pub iectrlclose : ℤ
iectrlclose = pos 109

abbrev pub iemessage : ℤ
iemessage = pos 110

abbrev pub iesendmessage : ℤ
iesendmessage = pos 111

abbrev pub ierecvmessage : ℤ
ierecvmessage = pos 112

abbrev pub iesendparams : ℤ
iesendparams = pos 113

abbrev pub ierecvparams : ℤ
ierecvparams = pos 114

abbrev pub iepackageresults : ℤ
iepackageresults = pos 115

abbrev pub iesendresults : ℤ
iesendresults = pos 116

abbrev pub ierecvresults : ℤ
ierecvresults = pos 117

abbrev pub ieselect : ℤ
ieselect = pos 118

abbrev pub ieclientterm : ℤ
ieclientterm = pos 119

abbrev pub ieserverterm : ℤ
ieserverterm = pos 120

abbrev pub ieaccessdenied : ℤ
ieaccessdenied = pos 121

abbrev pub iesetnodelay : ℤ
iesetnodelay = pos 122

abbrev pub iesetmss : ℤ
iesetmss = pos 123

abbrev pub iesetbuf : ℤ
iesetbuf = pos 124

abbrev pub iesettos : ℤ
iesettos = pos 125

abbrev pub iesetcos : ℤ
iesetcos = pos 126

abbrev pub iesetflow : ℤ
iesetflow = pos 127

abbrev pub iereuseaddr : ℤ
iereuseaddr = pos 128

abbrev pub ienonblocking : ℤ
ienonblocking = pos 129

abbrev pub iesetwindowsize : ℤ
iesetwindowsize = pos 130

abbrev pub ieprotocol : ℤ
ieprotocol = pos 131

abbrev pub ieaffinity : ℤ
ieaffinity = pos 132

abbrev pub iedaemon : ℤ
iedaemon = pos 133

abbrev pub iesetcongestion : ℤ
iesetcongestion = pos 134

abbrev pub iepidfile : ℤ
iepidfile = pos 135

abbrev pub iev6only : ℤ
iev6only = pos 136

abbrev pub iesetsctpdisablefrag : ℤ
iesetsctpdisablefrag = pos 137

abbrev pub iesetsctpnstream : ℤ
iesetsctpnstream = pos 138

abbrev pub iesetsctpbindx : ℤ
iesetsctpbindx = pos 139

abbrev pub iesetpacing : ℤ
iesetpacing = pos 140

abbrev pub iesetbuf2 : ℤ
iesetbuf2 = pos 141

abbrev pub ieauthtest : ℤ
ieauthtest = pos 142

abbrev pub iecreatestream : ℤ
iecreatestream = pos 200

abbrev pub ieinitstream : ℤ
ieinitstream = pos 201

abbrev pub iestreamlisten : ℤ
iestreamlisten = pos 202

abbrev pub iestreamconnect : ℤ
iestreamconnect = pos 203

abbrev pub iestreamaccept : ℤ
iestreamaccept = pos 204

abbrev pub iestreamwrite : ℤ
iestreamwrite = pos 205

abbrev pub iestreamread : ℤ
iestreamread = pos 206

abbrev pub iestreamclose : ℤ
iestreamclose = pos 207

abbrev pub iestreamid : ℤ
iestreamid = pos 208

abbrev pub ienewtimer : ℤ
ienewtimer = pos 300

abbrev pub ieupdatetimer : ℤ
ieupdatetimer = pos 301
