-- ===== src/InetAddress.antt =====
-- InetAddress.cpp: an IPv4 address with a port, and its text.
pub mod Text
use netframe.Base.{ℕ, List, Result}
use netframe.Buffer.Ints.{Machine, host_to_network16, host_to_network32}
use netframe.SocketOps.{Inet, SockaddrIn, zeroed, af_inet, to_ip, to_ip_port, from_ip_port}

-- `INADDR_ANY`.
abbrev pub k_inaddr_any : ℕ
k_inaddr_any = 0

-- `InetAddress(uint16_t)`: every address of the machine.
abbrev pub of_port : Machine → ℕ → SockaddrIn
of_port m port = record {
  sin_family = af_inet;
  sin_port = host_to_network16 m port;
  s_addr = host_to_network32 m k_inaddr_any;
}

-- `InetAddress(const std::string&, uint16_t)`.
abbrev pub of_ip_port : Machine → Inet → List ℕ → ℕ → SockaddrIn
of_ip_port m i ip port = from_ip_port m i ip port zeroed

-- `toIp`, into an array of 32 bytes.
abbrev pub text : Inet → SockaddrIn → Result (List ℕ)
text i addr = to_ip i 32 addr

-- `toIpPort`, into an array of 32 bytes.
abbrev pub text_with_port : Machine → Inet → SockaddrIn → List ℕ
text_with_port m i addr = to_ip_port m i 31 addr
