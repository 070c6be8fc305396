-- ===== src/TcpServer/Registry.antt =====
-- What the map of connections knows.
use netframe.Base.{ℕ, ◌+◌, ◌≡◌, refl, ap, ◌∙◌, List, [], ◌∷◌, map, Result, ok, ◌>>=◌}
use netframe.ThreadPool.RoundRobin.{IsValid, get_next_loop_total}
use netframe.TcpServer.{
  TcpServer, Conn, Task, established, destroyed, conn_name, new_connection, remove_connection,
  erase, destruct,
}

-- What happens to a server.
pub data Event : Type 0 where
  accepted : ℕ → Event
  closed : Conn → Event

unfoldable pub run : (ℕ → List ℕ) → TcpServer → List Event → Result TcpServer
run print s [] = ok s
run print s (accepted sockfd ∷ es) = do (s', _) ← new_connection print s sockfd; run print s' es
run print s (closed conn ∷ es) = run print (remove_connection s conn).0 es

removed-IsValid :
    (s : TcpServer) (conn : Conn)
    → IsValid s.thread_pool
    → IsValid (remove_connection s conn).0.thread_pool
unfolding remove_connection
removed-IsValid s conn v = v

removed_empty :
    (s : TcpServer) (conn : Conn)
    → s.connections ≡ []
    → (remove_connection s conn).0.connections ≡ []
unfolding remove_connection erase
removed_empty s conn h = rw h refl

new_connection_lem :
    (print : ℕ → List ℕ) (s : TcpServer) (sockfd : ℕ)
    → IsValid s.thread_pool
    → (t : TcpServer) × (acts : List Task) × (new_connection print s sockfd ≡ ok (t, acts))
      × IsValid t.thread_pool
      × (t.connections ≡ s.connections)
unfolding new_connection
new_connection_lem print s sockfd v =
    let (loop, pool, eq, v', _) = get_next_loop_total s.thread_pool v in
    (
      record s { next_conn_id = s.next_conn_id + 1; thread_pool = pool },
      established (record { name = conn_name print s; loop = loop; sockfd = sockfd }) ∷ [],
      rw eq refl,
      v',
      refl,
    )

-- Whatever a server with an empty map accepts and closes, every call returns, and its destructor
-- destroys no connection: the map that it goes through is still empty, also while connections
-- are open.
pub destruct_nothing :
    (print : ℕ → List ℕ) (s : TcpServer) (es : List Event)
    → IsValid s.thread_pool
    → s.connections ≡ []
    → (t : TcpServer) × (run print s es ≡ ok t) × (destruct t ≡ [])
unfolding run destruct
destruct_nothing print s [] v h = (s, refl, ap (map (λ (p : List ℕ × Conn). destroyed p.1)) h)
destruct_nothing print s (accepted fd ∷ es) v h =
    let (s', acts, eq, v', same) = new_connection_lem print s fd v in
    let (t, eq', none') = destruct_nothing print s' es v' (same ∙ h) in (t, rw eq eq', none')
destruct_nothing print s (closed conn ∷ es) v h =
    destruct_nothing print (remove_connection s conn).0 es (removed-IsValid s conn v)
      (removed_empty s conn h)
