-- ===== src/Client/Stale.antt =====
-- src/net/TCPClient.h: what becomes of a connection that was closed.
use generic_server.Prelude.{
  ap₂, none_ne, ℕ, ◌≡◌, refl, sym, ap, ◌∙◌, true, false, some, List, [], ◌∷◌, ◌++◌, map, ◌==◌,
  Bool-cases, inl, inr, arith,
}
use mathlib.Core.List.{Mem, mem-cons_of_mem, mem-cons_self}
use generic_server.Prelude.Int.{ℤ, pos, negsuc}
use generic_server.Event.{Event, enable_read, set_polling}
use generic_server.Event
use generic_server.Loop.{Loop, add_task, run_task, add_event, is_in_loop_thread}
use generic_server.Connection.{
  Site, event_of, get_fd, put_event, construct, with_loop, handle_close, erase, lookup, is_key,
}
use generic_server.Connection.Close.{handle_close_lem, lookup-erase_negative, same}
use generic_server.Client.Defs.{connected, close_callback, send}

-- A new connection: it is polled and in the map.
pub record Connected (k : ℕ) (fd : ℤ) (s t : Site) : Type 0 where
  pub polled : (event_of t).polling ≡ true
  pub has_fd : get_fd t ≡ fd
  pub listed : lookup fd t.conn_map ≡ some k
  pub owned : t.loop.thread_id ≡ s.loop.thread_id
  pub closes : t.closed ≡ s.closed

module _ (new_chars : ℕ → List ℕ) (tid k n : ℕ) (s : Site)
    (own : is_in_loop_thread tid s.loop ≡ true) where
  abbrev made : Site
  made = construct new_chars k (pos n) s

  abbrev listing : Site
  listing = record made { conn_map = (pos n, k) ∷ erase (pos n) made.conn_map }

  abbrev polling : Site
  polling =
      let l : Loop = listing.loop in
      with_loop (record l { work = run_task (add_task k) l.work }) listing

  made_event : event_of listing ≡ enable_read (Event.init (pos n))
  unfolding put_event
  made_event = rw (same k) refl

  connected-some : connected new_chars tid k (pos n) s ≡ some polling
  unfolding connected add_event put_event erase run_task
  connected-some = rw (made_event, own) refl

  polling_event : event_of polling ≡ set_polling true (event_of listing)
  unfolding run_task put_event
  polling_event = rw (same k)

  polling-Connected : Connected k (pos n) s polling
  unfolding put_event run_task lookup is_key
  polling-Connected = record {
    polled = ap (λ (e : Event). e.polling) polling_event;
    has_fd = ap (λ (e : Event). e.fd) (polling_event ∙ ap (set_polling true) made_event);
    listed = rw (same n) refl;
    owned = refl;
    closes = refl;
  }

key_eq : (n : ℕ) (fd : ℤ) → is_key (pos n) fd ≡ true → fd ≡ pos n
unfolding is_key
key_eq n (pos m) e = ap pos (ground arith)
key_eq n (negsuc m) e = cc

lookup_skip :
    (n j : ℕ) (fd : ℤ) (m : List (ℤ × ℕ))
    → is_key (pos n) fd ≡ false
    → lookup (pos n) ((fd, j) ∷ m) ≡ lookup (pos n) m
unfolding lookup
lookup_skip n j fd m e = rw e refl

sends_to :
    (msg : List ℕ) (n k : ℕ) (m : List (ℤ × ℕ))
    → lookup (pos n) m ≡ some k
    → Mem {A = ℤ × List ℕ} (pos n, msg) (map (λ (p : ℤ × ℕ). (p.0, msg)) m)
unfolding lookup
sends_to msg n k [] h = none_ne h
sends_to msg n k ((fd, j) ∷ m) h = elim (Bool-cases (is_key (pos n) fd)) [
  | inl e ↦ rw (key_eq n fd e) mem-cons_self
  | inr e ↦ mem-cons_of_mem (fd, msg) (sends_to msg n k m (sym (lookup_skip n j fd m e) ∙ h))
]

-- A client, in its loop's thread, gets a connection on the descriptor n, and later the connection
-- is closed, with nothing in between: the descriptor is closed, yet it stays in m_conns, and the
-- message that is sent next is sent to that descriptor too.
pub closed_gets_messages :
    (new_chars : ℕ → List ℕ) (tid k n : ℕ) (s : Site) (msg : List ℕ)
    → is_in_loop_thread tid s.loop ≡ true
    → (t : Site) × (u : Site) × (connected new_chars tid k (pos n) s ≡ some t)
      × (handle_close (some close_callback) tid t ≡ some u)
      × (u.closed ≡ s.closed ++ pos n ∷ [])
      × Mem {A = ℤ × List ℕ} (pos n, msg) (send msg u)
unfolding send close_callback
closed_gets_messages new_chars tid k n s msg own =
    let t : Site = polling new_chars tid k n s own in
    let c : Connected k (pos n) s t = polling-Connected new_chars tid k n s own in
    let (u, e, d) =
      handle_close_lem tid t (ap (λ (i : ℕ). i == tid) c.owned ∙ own) close_callback in
    let left : lookup (pos n) (close_callback u).conn_map ≡ some k =
      ap (λ (x : ℤ). lookup (pos n) (erase x u.conn_map)) d.forgotten
      ∙ lookup-erase_negative 0 n u.conn_map
      ∙ ap (lookup (pos n)) d.kept
      ∙ c.listed in
    (
      t,
      close_callback u,
      connected-some new_chars tid k n s own,
      e,
      d.closes ∙ ap₂ (λ (x : List ℤ) (y : ℤ). x ++ y ∷ []) c.closes c.has_fd,
      sends_to msg n k (close_callback u).conn_map left,
    )
