-- ===== src/TcpServer/Names.antt =====
-- Names of connections.
use netframe.Base.{
  ℕ, ◌≤◌, ◌≡◌, ◌≢◌, refl, sym, ap, ◌∙◌, List, ◌∷◌, ◌++◌, length, take, take_all, drop,
  drop-append_exact,
}
use netframe.TcpServer.{TcpServer, suffix, conn_name}

append_cancel : (s : List ℕ) {t u : List ℕ} → s ++ t ≡ s ++ u → t ≡ u
append_cancel s {t} {u} e =
    sym (drop-append_exact s t (length s) refl)
    ∙ ap (drop (length s)) e
    ∙ drop-append_exact s u (length s) refl

-- Two connections of one server have different names, if their numbers differ, the conversion of
-- numbers is one to one, and both suffixes fit the buffer of 32 bytes.
pub conn_name_inj :
    (print : ℕ → List ℕ) (s t : TcpServer)
    → ((i j : ℕ) → print i ≡ print j → i ≡ j)
    → t.name ≡ s.name
    → t.host_port ≡ s.host_port
    → s.next_conn_id ≢ t.next_conn_id
    → length (suffix print s.host_port s.next_conn_id) ≤ 31
    → length (suffix print t.host_port t.next_conn_id) ≤ 31
    → conn_name print s ≢ conn_name print t
conn_name_inj print s t inj same host ne fits fits' e = ne (inj _ _ numbers)
  where
    suffixes : suffix print s.host_port s.next_conn_id ≡ suffix print t.host_port t.next_conn_id
    suffixes =
        sym (take_all _ 31 fits)
        ∙ append_cancel s.name
            (e ∙ ap (λ n. n ++ take 31 (suffix print t.host_port t.next_conn_id)) same)
        ∙ take_all _ 31 fits'

    numbers : print s.next_conn_id ≡ print t.next_conn_id
    numbers = ap (drop 1) (
        append_cancel s.host_port
          (ap (drop 1) suffixes ∙ ap (λ h. h ++ (b'#' ∷ print t.next_conn_id)) host))
