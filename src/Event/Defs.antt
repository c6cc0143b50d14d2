-- ===== src/Event/Defs.antt =====
-- src/reactor/Event.h and src/reactor/Event.cpp: the class Event and its functions. A mask of epoll
-- bits is a record with a field for each bit that the code uses.
use generic_server.Prelude.{Bool, true, false, not, ◌&&◌, ◌||◌, Option, none, some, if◌then◌else◌}
use generic_server.Prelude.Int.{ℤ, negsuc}

-- EPOLLIN, EPOLLPRI, EPOLLOUT, EPOLLERR, EPOLLHUP, EPOLLRDHUP, EPOLLET.
pub record Mask : Type 0 where
  pub input : Bool
  pub pri : Bool
  pub output : Bool
  pub err : Bool
  pub hup : Bool
  pub rdhup : Bool
  pub et : Bool

abbrev pub no_events : Mask
no_events = record {
  input = false;
  pri = false;
  output = false;
  err = false;
  hup = false;
  rdhup = false;
  et = false;
}

pub record Event : Type 0 where
  pub fd : ℤ
  pub events : Mask
  pub revents : Mask
  pub polling : Bool

-- The constructor Event(fd).
abbrev pub init : ℤ → Event
init fd = record { fd = fd; events = no_events; revents = no_events; polling = false }

abbrev pub set_revents : Mask → Event → Event
set_revents m e = record e { revents = m }

abbrev pub set_polling : Bool → Event → Event
set_polling b e = record e { polling = b }

abbrev pub enable_read : Event → Event
enable_read e =
    let m : Mask = e.events in record e { events = record m { input = true; pri = true } }

abbrev pub enable_write : Bool → Event → Event
enable_write on e = let m : Mask = e.events in record e { events = record m { output = on } }

abbrev pub enable_et : Event → Event
enable_et e = let m : Mask = e.events in record e { events = record m { et = true } }

-- `::close(m_fd)`, and the descriptor is forgotten.
abbrev pub close : Event → Event
close e = record e { fd = negsuc 0 }

-- The state that the callbacks work on, with the event in it.
pub record Host {ℓ} (S : Type ℓ) : Type ℓ where
  pub revents_of : S → Mask
  pub with_revents : Mask → S → S
  pub read_callback : Option (S → S)
  pub write_callback : Option (S → S)
  pub close_callback : Option (S → S)
  pub error_callback : Option (S → S)

-- A callback that is not set is not called.
abbrev pub call {ℓ} : {S : Type ℓ} → Option (S → S) → S → S
call none s = s
call (some f) s = f s

-- Each test reads `m_revents` anew: a callback may have changed it.
module _ {ℓ} {S : Type ℓ} (h : Host S) where
  unfoldable pub on_hup : S → S
  on_hup s =
      if (h.revents_of s).hup && not (h.revents_of s).input then call h.close_callback s else s

  unfoldable pub on_err : S → S
  on_err s = if (h.revents_of s).err then call h.error_callback s else s

  unfoldable pub on_rdhup : S → S
  on_rdhup s = if (h.revents_of s).rdhup then call h.close_callback s else s

  unfoldable pub on_input : S → S
  on_input s = if (h.revents_of s).input || (h.revents_of s).pri then call h.read_callback s else s

  unfoldable pub on_output : S → S
  on_output s = if (h.revents_of s).output then call h.write_callback s else s

  unfoldable pub handle_event : S → S
  handle_event s = h.with_revents no_events (on_output (on_input (on_rdhup (on_err (on_hup s)))))

-- Event::reset: the masks are cleared and no callback is set; the polling flag stays.
abbrev pub reset : ℤ → Event → Event
reset d e = record e { fd = d; events = no_events; revents = no_events }

abbrev pub reset_callbacks {ℓ} : {S : Type ℓ} → Host S → Host S
reset_callbacks h = record h {
  read_callback = none;
  write_callback = none;
  close_callback = none;
  error_callback = none;
}
