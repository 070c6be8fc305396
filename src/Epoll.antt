-- ===== src/Epoll.antt =====
-- The event bits of <sys/epoll.h> and <poll.h>, which EPOLLIN and the others name.
use netframe.Base.{ℕ}

abbrev pub in_event : ℕ
in_event = 0x001

abbrev pub pri : ℕ
pri = 0x002

abbrev pub out : ℕ
out = 0x004

abbrev pub error : ℕ
error = 0x008

abbrev pub hup : ℕ
hup = 0x010

abbrev pub invalid : ℕ
invalid = 0x020

abbrev pub rdhup : ℕ
rdhup = 0x2000
