-- ===== src/Connection/Close.antt =====
-- src/net/TCPConnection.cpp (handleClose, shutdown) with TCPServer::onClose
-- (src/net/TCPServer.cpp).
use generic_server.Prelude.{
  ℕ, ◌≡◌, refl, sym, ap, ap₂, ◌∙◌, Bool, true, false, none, some, List, [], ◌∷◌, ◌++◌, append-nil,
  if◌then◌else◌, ◌==◌, Bool-cases, inl, inr, arith, map,
}
use mathlib.Core.Path.{subst}
use generic_server.Wheel.{Wheel, TimerList}
use generic_server.Prelude.Int.{ℤ, pos, negsuc}
use generic_server.Event.{Event, no_events, set_revents, set_polling, close}
use generic_server.Loop.{Task, run_task, ctl_del, Control, is_in_loop_thread}
use generic_server.Connection.Timers.{
  DisablesSlot, DisablesTask, Each, Each-map, slot_lem, task_lem,
}
use generic_server.Connection.Defs.{
  Connection, disable_listed, disable_task, Site, event_of, get_fd, put_event, stop_poll_event,
  tear_down, handle_close, shutdown, on_close, erase, lookup, is_key,
}

abbrev polls : Site → Bool
polls s = (event_of s).polling

abbrev pub controls : Site → List Control
controls s = s.loop.work.poller.controls

-- What the poller is told when polling stops.
abbrev pub withdrawn : Event → List Control
withdrawn e = if e.polling then (ctl_del, e.fd, e.events) ∷ [] else []

-- Polling of the event stops, and nothing else changes.
record Stopped (s : Site) (t : Site) : Type 0 where
  wheel : t.loop.work.timer_wheel ≡ s.loop.work.timer_wheel
  pending : t.loop.pending ≡ s.loop.pending
  event_after : event_of t ≡ set_polling false (event_of s)
  told : controls t ≡ controls s ++ withdrawn (event_of s)
  conn : t.conn ≡ s.conn
  closed : t.closed ≡ s.closed
  conn_map : t.conn_map ≡ s.conn_map

-- The event is not polled any more and its descriptor is closed and forgotten, nothing is received
-- and the list of timers is empty; what the poller was told; the map is as it was. The timers of
-- the list, and no others, are disabled, in the slots of the wheel and in the pending tasks.
pub record TornDown (s : Site) (t : Site) : Type 0 where
  pub forgotten : get_fd t ≡ negsuc 0
  pub idle : (event_of t).polling ≡ false
  pub quiet : (event_of t).revents ≡ no_events
  pub timeless : t.conn.timer_list ≡ []
  pub disarmed :
      Each
        (λ x y. Each (DisablesSlot s.conn.timer_list) x y)
        s.loop.work.timer_wheel.slots
        t.loop.work.timer_wheel.slots
  pub dropped : Each (DisablesTask s.conn.timer_list) s.loop.pending t.loop.pending
  pub closes : t.closed ≡ s.closed ++ get_fd s ∷ []
  pub kept : t.conn_map ≡ s.conn_map
  pub told : controls t ≡ controls s ++ withdrawn (event_of s)

pub same : (n : ℕ) → (n == n) ≡ true
same n = ground arith

pub get_put : (e : Event) (s : Site) → event_of (put_event e s) ≡ e
unfolding put_event
get_put e s = rw (same s.conn.event)

already : (e : Event) → e.polling ≡ false → e ≡ set_polling false e
already e p = rw p

negative_key : (m n : ℕ) (k : ℤ) → is_key (negsuc m) k ≡ true → is_key (pos n) k ≡ false
unfolding is_key
negative_key m n (pos a) e = cc
negative_key m n (negsuc a) e = refl

pub lookup-erase_negative :
    (m n : ℕ) (ps : List (ℤ × ℕ)) → lookup (pos n) (erase (negsuc m) ps) ≡ lookup (pos n) ps
unfolding lookup erase
lookup-erase_negative m n [] = refl
lookup-erase_negative m n (p ∷ ps) = elim (Bool-cases (is_key (negsuc m) p.0)) [
  | inl q ↦ rw (q, negative_key m n p.0 q) (lookup-erase_negative m n ps)
  | inr q ↦ rw (q, lookup-erase_negative m n ps)
]

lookup-erase : (k : ℤ) (ps : List (ℤ × ℕ)) → lookup k (erase k ps) ≡ none
unfolding lookup erase
lookup-erase k [] = refl
lookup-erase k (p ∷ ps) = elim (Bool-cases (is_key k p.0)) [
  | inl q ↦ rw q (lookup-erase k ps)
  | inr q ↦ rw (q, lookup-erase k ps, q)
]

module _ (tid : ℕ) (s : Site) (own : is_in_loop_thread tid s.loop ≡ true) where
  stop_yes : polls s ≡ true → Stopped s (stop_poll_event tid s)
  unfolding stop_poll_event run_task
  stop_yes p =
      rw (own, p)
        (record {
          wheel = refl;
          pending = refl;
          event_after = rw (same s.conn.event);
          told = rw p;
          conn = refl;
          closed = refl;
          conn_map = refl;
        })

  stop_no : polls s ≡ false → Stopped s (stop_poll_event tid s)
  unfolding stop_poll_event run_task
  stop_no p =
      rw (own, p)
        (record {
          wheel = refl;
          pending = refl;
          event_after = already (event_of s) p;
          told = rw p (sym (append-nil (controls s)));
          conn = refl;
          closed = refl;
          conn_map = refl;
        })

  stop_poll_event_lem : Stopped s (stop_poll_event tid s)
  stop_poll_event_lem = elim (Bool-cases (polls s)) [ inl p ↦ stop_yes p | inr p ↦ stop_no p ]

module _ (tid : ℕ) (s : Site) (own : is_in_loop_thread tid s.loop ≡ true) where
  abbrev start : Site
  start = put_event (set_revents no_events (event_of s)) s

  start_own : is_in_loop_thread tid start.loop ≡ true
  unfolding put_event
  start_own = own

  start_told : controls start ≡ controls s
  unfolding put_event
  start_told = refl

  start_wheel : start.loop.work.timer_wheel ≡ s.loop.work.timer_wheel
  unfolding put_event
  start_wheel = refl

  start_pending : start.loop.pending ≡ s.loop.pending
  unfolding put_event
  start_pending = refl

  start_conn : start.conn ≡ s.conn
  unfolding put_event
  start_conn = refl

  abbrev ready : Site
  ready = stop_poll_event tid start

  end_wheel :
      (tear_down tid s).loop.work.timer_wheel.slots
      ≡ map
          (λ (l : TimerList). map (disable_listed ready.conn.timer_list) l)
          ready.loop.work.timer_wheel.slots
  unfolding tear_down put_event
  end_wheel = refl

  end_pending :
      (tear_down tid s).loop.pending ≡ map (disable_task ready.conn.timer_list) ready.loop.pending
  unfolding tear_down put_event
  end_pending = refl

  start_closed : start.closed ≡ s.closed
  unfolding put_event
  start_closed = refl

  start_map : start.conn_map ≡ s.conn_map
  unfolding put_event
  start_map = refl

  end_told : controls (tear_down tid s) ≡ controls (stop_poll_event tid start)
  unfolding tear_down put_event
  end_told = refl

  end_map : (tear_down tid s).conn_map ≡ (stop_poll_event tid start).conn_map
  unfolding tear_down put_event
  end_map = refl

  end_event : event_of (tear_down tid s) ≡ close (event_of (stop_poll_event tid start))
  unfolding tear_down
  end_event = get_put (close (event_of (stop_poll_event tid start))) (stop_poll_event tid start)

  abbrev all_slots : Connection → List TimerList → List TimerList
  all_slots c w = map (λ (l : TimerList). map (disable_listed c.timer_list) l) w

  tear_down_lem : TornDown s (tear_down tid s)
  unfolding tear_down
  tear_down_lem =
      let f : Stopped start (stop_poll_event tid start) = stop_poll_event_lem tid start start_own in
      let fs : List ℕ = s.conn.timer_list in
      let R : TimerList → TimerList → Type 0 = λ x y. Each (DisablesSlot fs) x y in
      let g : event_of start ≡ set_revents no_events (event_of s) =
        get_put (set_revents no_events (event_of s)) s in
      let e : event_of (stop_poll_event tid start) ≡ set_polling false (event_of start) =
        f.event_after in
      record {
        forgotten = ap (λ (x : Event). x.fd) end_event;
        idle = ap (λ (x : Event). x.polling) (end_event ∙ ap close e);
        quiet =
            ap (λ (x : Event). x.revents) (end_event ∙ ap close e)
            ∙ ap (λ (x : Event). x.revents) g;
        timeless = refl;
        disarmed =
            subst (λ (x : List TimerList). Each R s.loop.work.timer_wheel.slots x)
              (sym (
                end_wheel
                ∙ ap₂ (λ (c : Connection) (w : Wheel). all_slots c w.slots) (f.conn ∙ start_conn)
                    (f.wheel ∙ start_wheel)))
              (Each-map R (λ (l : TimerList). map (disable_listed fs) l)
                (λ l. Each-map (DisablesSlot fs) (disable_listed fs) (slot_lem fs) l)
                s.loop.work.timer_wheel.slots);
        dropped =
            subst (λ (x : List Task). Each (DisablesTask fs) s.loop.pending x)
              (sym (
                end_pending
                ∙ ap₂ (λ (c : Connection) (x : List Task). map (disable_task c.timer_list) x)
                    (f.conn ∙ start_conn) (f.pending ∙ start_pending)))
              (Each-map (DisablesTask fs) (disable_task fs) (task_lem fs) s.loop.pending);
        closes =
            ap₂ (λ (x : List ℤ) (y : ℤ). x ++ y ∷ []) (f.closed ∙ start_closed)
              (ap (λ (x : Event). x.fd) e ∙ ap (λ (x : Event). x.fd) g);
        kept = end_map ∙ f.conn_map ∙ start_map;
        told = end_told ∙ f.told ∙ ap₂ (λ (x y : List Control). x ++ y) start_told (ap withdrawn g);
      }

  -- In the loop's thread handleClose with a close callback f gives f a connection whose event is
  -- not polled any more, with no descriptor, nothing received and an empty list of timers; the
  -- timers of its list are disabled, in the wheel and in m_pending, and all others are as they
  -- were; its descriptor was closed once, epoll_ctl was told to delete it if and only if it was
  -- polled, and the server's map is as it was before.
  pub handle_close_lem :
      (f : Site → Site) → (t : Site) × (handle_close (some f) tid s ≡ some (f t)) × TornDown s t
  unfolding handle_close
  handle_close_lem f = (tear_down tid s, refl, tear_down_lem)

  -- In the loop's thread, with TCPServer::onClose as the close callback, handleClose leaves every
  -- connection under its descriptor in the server's map: the descriptor is -1 by the time that the
  -- callback erases it.
  pub handle_close_keeps :
      (n : ℕ)
      → (t : Site) × (handle_close (some on_close) tid s ≡ some t)
        × (lookup (pos n) t.conn_map ≡ lookup (pos n) s.conn_map)
  unfolding handle_close on_close
  handle_close_keeps n =
      let t : Site = tear_down tid s in
      let f : TornDown s t = tear_down_lem in
      (
        on_close t,
        refl,
        ap (λ (k : ℤ). lookup (pos n) (erase k t.conn_map)) f.forgotten
            ∙ lookup-erase_negative 0 n t.conn_map
            ∙ ap (lookup (pos n)) f.kept,
      )

  -- In the loop's thread, with TCPServer::onClose as the close callback, shutdown stops the polling
  -- of the connection's event, takes the connection's descriptor off the server's map and closes
  -- it.
  pub shutdown_lem :
      ((event_of (shutdown (some on_close) tid s)).polling ≡ false)
      × (lookup (get_fd s) (shutdown (some on_close) tid s).conn_map ≡ none)
      × ((shutdown (some on_close) tid s).closed ≡ s.closed ++ get_fd s ∷ [])
  unfolding shutdown on_close
  shutdown_lem =
      let t : Site = stop_poll_event tid s in
      let f : Stopped s t = stop_poll_event_lem tid s own in
      let g : get_fd t ≡ get_fd s = ap (λ (x : Event). x.fd) f.event_after in
      (
        ap (λ (x : Event). x.polling) f.event_after,
        ap (λ (k : ℤ). lookup k (erase (get_fd t) t.conn_map)) (sym g)
            ∙ lookup-erase (get_fd t) t.conn_map,
        ap₂ (λ (x : List ℤ) (y : ℤ). x ++ y ∷ []) f.closed g,
      )
