-- ===== src/InetAddress/Text.antt =====
-- The text of an address is read back.
use netframe.Base.{
  ℕ, ◌^◌, ◌≤◌, ◌<◌, ◌≡◌, refl, sym, ap, ◌∙◌, ◌∷◌, ◌++◌, length, length-append, take_all, some,
  arith, ok,
}
use netframe.Buffer.Ints.{Machine}
use netframe.SocketOps.{Inet, to_ip, to_ip_port, from_ip_port}
use netframe.InetAddress.{of_ip_port, text, text_with_port}

-- The documented behaviour of the C library's functions, and of memory: an address that `inet_ntop`
-- wrote is read by `inet_pton`, has at most 15 characters, and a port at most 5.
pub record Laws (m : Machine) (i : Inet) : Type 0 where
  pub reads : (a : ℕ) → a < 2 ^ 32 → i.pton (i.ntop a) ≡ some a
  pub short : (a : ℕ) → length (i.ntop a) ≤ 15
  pub digits : (p : ℕ) → p < 2 ^ 16 → length (i.print p) ≤ 5
  pub loads : (v : ℕ) → m.load16 (m.store16 v) ≡ v

module _ (m : Machine) (i : Inet) (l : Laws m i) where
  port_back : (p : ℕ) → p < 2 ^ 16 → m.be16toh (m.htobe16 p) ≡ p
  port_back p h =
      ap m.be16toh (sym (l.loads (m.htobe16 p)) ∙ ap m.load16 (m.wire16 p h)) ∙ m.unwire16 p h

  -- An address made from the text of any address and any port, on a machine of any byte order:
  -- `toIp` passes its assertion and gives this text back, and `toIpPort` gives the text, a colon
  -- and the port, of which the array of 32 bytes cuts nothing off.
  pub text-of_ip_port :
      (a p : ℕ)
      → a < 2 ^ 32
      → p < 2 ^ 16
      → (text i (of_ip_port m i (i.ntop a) p) ≡ ok (i.ntop a))
        × (text_with_port m i (of_ip_port m i (i.ntop a) p) ≡ i.ntop a ++ (b':' ∷ i.print p))
  unfolding to_ip to_ip_port from_ip_port
  text-of_ip_port a p h k = (
    rw (l.reads a h) refl,
    rw (l.reads a h, port_back p k)
        (take_all _ 31
          (omega (arith, length-append (i.ntop a) (b':' ∷ i.print p), l.short a, l.digits p k))),
  )
