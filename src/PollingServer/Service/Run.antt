-- ===== src/PollingServer/Service/Run.antt =====
-- When `Run` returns, and what it has counted by then.
use netframe.Base.{
  ℕ, ◌+◌, ◌≡◌, refl, sym, ap, subst, ◌∙◌, Bool, true, false, ◌||◌, List, [], ◌∷◌, ◌++◌, none, some,
  Result, ok, arith, if◌then◌else◌,
}
use netframe.Epoll
use netframe.PollingServer.{Server, Event, lt_model, does, add_fd, set_nonblocking}
use netframe.PollingServer.Counts.{count_of, arrivals, lt_model_counts}
use netframe.PollingServer.Service.{
  Service, Wake, woken, release, released_by, serve, close_listen, run,
}

-- The events that are served: those of each wake up to the first that fails or that comes with a
-- `Release`, the events of the latter included.
abbrev pub served : List Wake → List Event
served [] = []
served (woken none released ∷ ws) = []
served (woken (some es) true ∷ ws) = es
served (woken (some es) false ∷ ws) = es ++ served ws

-- One of the wakes fails, or comes with a `Release`.
abbrev pub ends : List Wake → Bool
ends [] = false
ends (woken none released ∷ ws) = true
ends (woken (some es) released ∷ ws) = released || ends ws

arrivals-append :
    (listenfd : ℕ) (k : List ℕ) (es fs : List Event)
    → arrivals listenfd k (es ++ fs) ≡ arrivals listenfd k es + arrivals listenfd k fs
arrivals-append listenfd k [] fs = omega arith
arrivals-append listenfd k (e ∷ es) fs = omega (arith, arrivals-append listenfd k es fs)

module _ (print : ℕ → List ℕ) (listenfd : ℕ) where
  stopped :
      (s : Service) (ws : List Wake) → s.running ≡ false → serve print listenfd s ws ≡ (true, s)
  unfolding serve
  stopped s [] off = rw off refl
  stopped s (woken none released ∷ ws) off = rw off refl
  stopped s (woken (some es) released ∷ ws) off = rw off refl

  abbrev after : Service → List Event → Service
  after s es = record s { server = lt_model print listenfd (s.server) es }

  serve-some :
      (s : Service) (es : List Event) (released : Bool) (ws : List Wake)
      → s.running ≡ true
      → serve print listenfd s (woken (some es) released ∷ ws)
        ≡ serve print listenfd (released_by released (after s es)) ws
  unfolding serve
  serve-some s es released ws on =
      ap (λ b. if b then serve print listenfd (released_by released (after s es)) ws else (true, s))
        on

  serve-none :
      (s : Service) (released : Bool) (ws : List Wake)
      → s.running ≡ true
      → serve print listenfd s (woken none released ∷ ws) ≡ (true, released_by released s)
  unfolding serve
  serve-none s released ws on = ap (λ b. if b then (true, released_by released s) else (true, s)) on

  serve-nil : (s : Service) → s.running ≡ true → serve print listenfd s [] ≡ (false, s)
  unfolding serve
  serve-nil s on = ap (λ b. if b then (false, s) else (true, s)) on

  abbrev opened : Service → Service
  opened s = record s {
    server = does (s.server) (add_fd listenfd Epoll.in_event ∷ set_nonblocking listenfd ∷ []);
  }

  -- A number that the events of each batch add to.
  pub record Adds (m : Server → ℕ) (gain : List Event → ℕ) : Type 0 where
    pub batch : (s : Server) (es : List Event) → m (lt_model print listenfd s es) ≡ m s + gain es
    pub nothing : gain [] ≡ 0
    pub joined : (es fs : List Event) → gain (es ++ fs) ≡ gain es + gain fs

  module _ (m : Server → ℕ) (gain : List Event → ℕ) (adds : Adds m gain) where
    -- What `serve` makes of a running service.
    record Served (s : Service) (ws : List Wake) (r : Bool × Service) : Type 0 where
      over : r.0 ≡ ends ws
      added : m r.1.server ≡ m s.server + gain (served ws)

    serve_lem :
        (s : Service) (ws : List Wake) → s.running ≡ true → Served s ws (serve print listenfd s ws)
    serve_lem s [] on =
        subst (Served s []) (sym (serve-nil s on))
          (record { over = refl; added = omega (arith, adds.nothing) })
    serve_lem s (woken none released ∷ ws) on =
        subst (Served s (woken none released ∷ ws)) (sym (serve-none s released ws on))
          (record { over = refl; added = silent released })
      where
        silent : (b : Bool) → m (released_by b s).server ≡ m s.server + gain []
        silent true = omega (arith, adds.nothing)
        silent false = omega (arith, adds.nothing)
    serve_lem s (woken (some es) true ∷ ws) on =
        subst (Served s (woken (some es) true ∷ ws))
          (sym (serve-some s es true ws on ∙ stopped (release (after s es)) ws refl))
          (record { over = refl; added = adds.batch s.server es })
    serve_lem s (woken (some es) false ∷ ws) on =
        let z = serve_lem (after s es) ws on in
        subst (Served s (woken (some es) false ∷ ws)) (sym (serve-some s es false ws on)) (record {
          over = z.over;
          added = omega (arith, z.added, adds.batch s.server es, adds.joined es (served ws));
        })

    -- `Run` returns when it should, and until it closes the listening socket the number has grown
    -- by what the events served add.
    pub run_adds :
        (s : Service) (ws : List Wake)
        → s.running ≡ true
        → m (opened s).server ≡ m s.server
        → (t : Service) × (run print s
              (some (record { listenfd = listenfd; bound = true; listening = true }))
              ws
            ≡ ok (ends ws, (close_listen listenfd (ends ws, t)).1))
          × (m t.server ≡ m s.server + gain (served ws))
    unfolding run
    run_adds s ws on e =
        let out = serve print listenfd (opened s) ws in
        let z = serve_lem (opened s) ws on in
        (
          out.1,
          ap (λ b. ok (close_listen listenfd (b, out.1))) z.over ∙ closed (ends ws) out.1,
          omega (arith, z.added, e),
        )
      where
        closed :
            (b : Bool) (t : Service)
            → ◌≡◌ {A = Result (Bool × Service)}
                (ok (close_listen listenfd (b, t)))
                (ok (b, (close_listen listenfd (b, t)).1))
        closed true t = refl
        closed false t = refl

  close_listen-counts :
      (k : List ℕ) (b : Bool) (s : Service)
      → count_of (close_listen listenfd (b, s)).1.server k ≡ count_of s.server k
  close_listen-counts k true s = refl
  close_listen-counts k false s = refl

  -- `Run` on a service that `Init` has set up, with the socket calls going through: it returns
  -- exactly if a `Wait` fails or `Release` is called; by then, or while it waits, the count of each
  -- text is what it was plus the arrivals in the events served.
  pub run-served :
      (k : List ℕ) (s : Service) (ws : List Wake)
      → s.running ≡ true
      → (t : Service) × (run print s
            (some (record { listenfd = listenfd; bound = true; listening = true }))
            ws
          ≡ ok (ends ws, t))
        × (count_of t.server k ≡ count_of s.server k + arrivals listenfd k (served ws))
  run-served k s ws on =
      let (t, eq, counts) =
        run_adds (λ v. count_of v k) (arrivals listenfd k)
          (record {
            batch = λ v es. lt_model_counts print listenfd v es k;
            nothing = refl;
            joined = arrivals-append listenfd k;
          })
          s ws on refl in
      ((close_listen listenfd (ends ws, t)).1, eq, close_listen-counts k (ends ws) t ∙ counts)
