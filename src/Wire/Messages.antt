-- ===== src/Wire/Messages.antt =====
-- libs/planten_9p/src/messages.rs: the message types.
use planten.Base.{ℕ}

abbrev pub tversion : ℕ
tversion = 100

abbrev pub rversion : ℕ
rversion = 101

abbrev pub tauth : ℕ
tauth = 102

abbrev pub rauth : ℕ
rauth = 103

abbrev pub tattach : ℕ
tattach = 104

abbrev pub rattach : ℕ
rattach = 105

abbrev pub terror : ℕ
terror = 106

abbrev pub rerror : ℕ
rerror = 107

abbrev pub tflush : ℕ
tflush = 108

abbrev pub rflush : ℕ
rflush = 109

abbrev pub twalk : ℕ
twalk = 110

abbrev pub rwalk : ℕ
rwalk = 111

abbrev pub topen : ℕ
topen = 112

abbrev pub ropen : ℕ
ropen = 113

abbrev pub tcreate : ℕ
tcreate = 114

abbrev pub rcreate : ℕ
rcreate = 115

abbrev pub tread : ℕ
tread = 116

abbrev pub rread : ℕ
rread = 117

abbrev pub twrite : ℕ
twrite = 118

abbrev pub rwrite : ℕ
rwrite = 119

abbrev pub tclunk : ℕ
tclunk = 120

abbrev pub rclunk : ℕ
rclunk = 121

abbrev pub tremove : ℕ
tremove = 122

abbrev pub rremove : ℕ
rremove = 123

abbrev pub tstat : ℕ
tstat = 124

abbrev pub rstat : ℕ
rstat = 125

abbrev pub twstat : ℕ
twstat = 126

abbrev pub rwstat : ℕ
rwstat = 127

abbrev pub tclone : ℕ
tclone = 128

abbrev pub rclone : ℕ
rclone = 129
