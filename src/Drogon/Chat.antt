-- ===== src/Drogon/Chat.antt =====
-- src/test_drogon.cpp: the conversation of the web-socket client with WebSocketChat. The frames of each
-- direction arrive in the order in which they were sent, and a ping is answered by a pong with its text.
-- `shutdown` sends a Close frame, the last frame of the client. The server's side may answer it by one,
-- whose payload is left open; that of the client's frame is left out, since no handler shows it.
use example.Base.{Bool, true, false, Option, none, some, List, [], ◌∷◌, ◌++◌, ◌≡◌, ◌≢◌, Text, codes}
use example.Asio.{Line, info}
use example.Drogon.{
  WebSocketMessageType, text, ping, pong, close, handle_new_message, Action, log, send,
  set_ping_message, shutdown, stop, handle_new_connection, message_handler, connected,
}

abbrev pub Frame : Type 0
Frame = Text × WebSocketMessageType

-- The connection: the frames on their way, the message that the client's timer sends, what each side
-- has logged, and whether the client has shut the connection down and whether it is closed.
pub record Chat : Type 0 where
  pub to_server : List Frame
  pub to_client : List Frame
  pub ping_message : Option Text
  pub server_log : List Line
  pub client_log : List Line
  pub shut : Bool
  pub closed : Bool

abbrev pub close_frame : Frame
close_frame = ([], close)

-- A second `shutdown` sends nothing.
abbrev pub close_once : Bool → List Frame
close_once true = []
close_once false = close_frame ∷ []

-- What an action of the client's handlers does, and one of the server's.
abbrev pub client_act : Action → Chat → Chat
client_act (log l) c = record c { client_log = c.client_log ++ (l ∷ []) }
client_act (send m) c = record c { to_server = c.to_server ++ ((m, text) ∷ []) }
client_act (set_ping_message m seconds) c = record c { ping_message = some m }
client_act shutdown c = record c { shut = true; to_server = c.to_server ++ close_once c.shut }
client_act stop c = record c { shut = true; closed = true }

abbrev pub server_act : Action → Chat → Chat
server_act (log l) c = record c { server_log = c.server_log ++ (l ∷ []) }
server_act (send m) c = record c { to_client = c.to_client ++ ((m, text) ∷ []) }
server_act (set_ping_message m seconds) c = c
server_act shutdown c = c
server_act stop c = c

abbrev pub acts : (Action → Chat → Chat) → List Action → Chat → Chat
acts act [] c = c
acts act (a ∷ rest) c = acts act rest (act a c)

abbrev empty_chat : Chat
empty_chat = record {
  to_server = [];
  to_client = [];
  ping_message = none;
  server_log = [];
  client_log = [];
  shut = false;
  closed = false;
}

-- Both sides are told of the connection.
unfoldable pub opened : Chat
unfolding connected
opened = acts client_act (connected true) (acts server_act handle_new_connection empty_chat)

-- `WebSocketChat::handleConnectionClosed`, and the client's handler of the same event.
abbrev pub handle_connection_closed : List Action
handle_connection_closed = log (info (codes "WebSocketChat websocket closed!") []) ∷ []

abbrev pub connection_closed : List Action
connection_closed = log (info (codes "WebSocket connection closed!") []) ∷ []

-- What the server's side answers to a frame by itself.
pub data Answers : Frame → List Frame → Type 0 where
  pongs : (m : Text) → Answers (m, ping) ((m, pong) ∷ [])
  closes_too : (m payload : Text) → Answers (m, close) ((payload, close) ∷ [])
  silent : (f : Frame) → f.1 ≢ ping → Answers f []

-- A frame arrives at one of the sides, the client's timer runs out, or the connection that the client
-- has shut down is closed.
pub data ChatStep (c : Chat) : Chat → Type 0 where
  server_gets :
      (f : Frame) (rest answer : List Frame)
      → c.closed ≡ false
      → c.to_server ≡ f ∷ rest
      → Answers f answer
      → ChatStep c (record c {
        to_server = rest;
        to_client = c.to_client ++ answer;
        server_log = c.server_log ++ handle_new_message f.0 f.1;
      })
  client_gets :
      (f : Frame) (rest : List Frame)
      → c.closed ≡ false
      → c.to_client ≡ f ∷ rest
      → ChatStep c (acts client_act (message_handler f.0 f.1) (record c { to_client = rest }))
  timer :
      (m : Text)
      → c.closed ≡ false
      → c.shut ≡ false
      → c.ping_message ≡ some m
      → ChatStep c (record c { to_server = c.to_server ++ ((m, ping) ∷ []) })
  closes :
      c.closed ≡ false
      → c.shut ≡ true
      → ChatStep c (
          acts client_act connection_closed
            (acts server_act handle_connection_closed (record c { closed = true })))

pub data ChatReach : Chat → Type 0 where
  starts : ChatReach opened
  goes_on : {c d : Chat} → ChatReach c → ChatStep c d → ChatReach d
