-- ===== src/Connector/Defs.antt =====
-- src/net/Connector.h and src/net/Connector.cpp. The system calls' answers are arguments; what a
-- connector does to the rest is a list of actions.
use generic_server.Prelude.{
  ℕ, suc, Bool, true, false, Option, none, some, List, [], ◌∷◌, ◌++◌, if◌then◌else◌, ◌&&◌, ltb,
  ◌==◌, ◌>>=◌,
}
use generic_server.Prelude.Int.{ℤ, pos, negsuc}
use generic_server.Event.{Event, enable_write}
use generic_server.Event

-- What a connector does to its loop, the system, and its user.
pub data Action : Type 0 where
  adds_event : ℤ → Action
  removes_event : ℤ → Action
  closes : ℤ → Action
  waits : ℕ → Action
  succeeds : ℤ → Action
  fails : Action

-- The event that is polled while the connector waits, `retry_times`, which is static in the source,
-- and the actions so far. The two callbacks are set or not.
pub record Connector : Type 0 where
  pub event : Option Event
  pub retry_times : ℕ
  pub has_success : Bool
  pub has_failed : Bool
  pub actions : List Action

-- The constructor Connector(addr, loop), and the callbacks.
abbrev pub init : ℕ → Connector
init times = record {
  event = none;
  retry_times = times;
  has_success = false;
  has_failed = false;
  actions = [];
}

abbrev pub set_success_callback : Connector → Connector
set_success_callback c = record c { has_success = true }

abbrev pub set_failed_callback : Connector → Connector
set_failed_callback c = record c { has_failed = true }

abbrev pub act : Action → Connector → Connector
act a c = record c { actions = c.actions ++ a ∷ [] }

abbrev pub fail : Connector → Connector
fail c = if c.has_failed then act fails c else c

abbrev pub succeed : ℤ → Connector → Connector
succeed fd c = if c.has_success then act (succeeds fd) c else c

unfoldable pub check : ℤ → Connector → Connector
check fd c = act (adds_event fd) (record c { event = some (enable_write true (Event.init fd)) })

-- A timer of 5 ms that calls connect again, or the failed callback.
unfoldable pub retry : ℤ → Connector → Connector
retry fd c =
    let d : Connector = act (closes fd) (record c { retry_times = suc c.retry_times }) in
    if ltb d.retry_times 3 then act (waits 5) d else fail d

-- The classes of errno after `::connect` that the switch tells apart.
pub data Outcome : Type 0 where
  connected : Outcome
  in_progress : Outcome
  try_again : Outcome
  refused : Outcome
  unknown : Outcome

-- connect with the new descriptor fd.
unfoldable pub connect : Outcome → ℤ → Connector → Connector
connect connected fd c = check fd c
connect in_progress fd c = check fd c
connect try_again fd c = retry fd c
connect refused fd c = fail c
connect unknown fd c = retry fd c

-- A sockaddr_in6, read as both families read it.
pub record Address : Type 0 where
  pub family : ℕ
  pub port : ℕ
  pub addr4 : ℕ
  pub addr6 : ℕ

abbrev pub af_inet : ℕ
af_inet = 2

abbrev pub af_inet6 : ℕ
af_inet6 = 10

-- isSelfConnect with the local and the peer address of the socket.
unfoldable pub is_self_connect : Address → Address → Bool
is_self_connect local peer =
    if local.family == af_inet
    then local.port == peer.port && local.addr4 == peer.addr4
    else if local.family == af_inet6
    then local.port == peer.port && local.addr6 == peer.addr6
    else false

-- The branches of handleWrite for an error.
unfoldable pub give_up : Address → Address → ℤ → Connector → Connector
give_up local peer fd c =
    if is_self_connect local peer then retry fd c else fail (act (closes fd) c)

abbrev pub settle : ℤ → Address → Address → ℤ → Connector → Connector
settle (pos n) local peer fd c = if n == 0 then succeed fd c else give_up local peer fd c
settle (negsuc n) local peer fd c = give_up local peer fd c

abbrev pub written : ℤ → Address → Address → Event → Connector → Connector
written err local peer e c =
    let d : Connector = settle err local peer e.fd (act (removes_event e.fd) c) in
    record d { event = some (enable_write false e) }

-- handleWrite; `err` is what getSocketError gives. Without an event it faults.
unfoldable pub handle_write : ℤ → Address → Address → Connector → Option Connector
handle_write err local peer c = do e ← c.event; some (written err local peer e c)
