-- ===== src/EventClient.antt =====
-- pkg/fab/events/client: the dispatcher with a connection to an event server, and the client on it.
pub mod Dispatcher
pub mod Client
pub mod PeerResolver
pub mod Tests
use fabric_sdk_go_gm.Common.{ℕ, Bool, List, Option}
use fabric_sdk_go_gm.Common.Text.{Text}
use fabric_sdk_go_gm.Selection.{Peer}
use fabric_sdk_go_gm.Service.Registrations.{Error}

-- The answer of code that is not modelled, with the text of its error.
pub data Answer (A : Type 0) : Type 0 where
  ok : A → Answer A
  err : Text → Answer A

-- What the surroundings answer to one attempt to connect: the discovery service, the peer resolver,
-- the connection provider, `make` of the channel for connection events, and the handler that is
-- called after the connect, where there is one, with its error if it has one.
pub record Surroundings : Type 0 where
  pub get_peers : Answer (List Peer)
  pub resolve : List Peer → Answer Peer
  pub provide : Peer → Answer ℕ
  pub made : ℕ
  pub after_connect : Option (Option Text)

pub data ConnectError : Type 0 where
  dispatcher_error : Error → ConnectError
  outside_error : Text → ConnectError
  no_peers connection_already_closed registration_exists : ConnectError
  client_closed not_disconnected submit_failed attempts_exceeded : ConnectError

pub record DisconnectedError : Type 0 where
  pub cause : Text
  pub fatal : Bool

pub record ConnectionEvent : Type 0 where
  pub connected : Bool
  pub error : Option DisconnectedError

-- A channel of connection events: whether it is closed, what it has taken, and the sends so far.
pub record ConnectionChannel : Type 0 where
  pub closed : Bool
  pub log : List ConnectionEvent
  pub tries : ℕ
