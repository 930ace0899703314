-- ===== src/Drogon.antt =====
-- src/test_drogon.cpp: the clients that share the event loops, the request, and the handlers of the web
-- socket. `get_http_client` stands in src/test.cpp too.
pub mod Clients
pub mod Messages
pub mod EventLoop
pub mod Main
pub mod Ending
pub mod Chat
pub mod Closing
pub mod TalkState
pub mod Arrivals
pub mod Talk
pub mod Direction
mod Tests
use example.Base.{
  ℕ, zero, suc, ◌+◌, ◌%◌, ◌^◌, Bool, true, false, Option, none, some, List, [], ◌∷◌, ◌==◌,
  if◌then◌else◌, get_elem?, Text, codes,
}
use example.Asio.{Line, info}

-- A client, by the event loop that it runs on.
pub record HttpClient : Type 0 where
  pub event_loop : ℕ

-- The loop of main that makes the clients; `get_next_loop` is trantor's.
unfoldable pub make_clients : {S : Type 0} → (S → ℕ × S) → ℕ → S → List HttpClient × S
make_clients get_next_loop zero s = ([], s)
make_clients get_next_loop (suc n) s =
    let (l, t) = get_next_loop s in
    let (clients, u) = make_clients get_next_loop n t in (record { event_loop = l } ∷ clients, u)

-- The range of `uint32_t`.
abbrev pub uint32_t : ℕ
uint32_t = 2 ^ 32

-- `get_http_client`, for the number of clients and the static `count`; `none` is a read outside the
-- vector.
unfoldable pub get_http_client : ℕ → List HttpClient → ℕ → Option (HttpClient × ℕ)
get_http_client hardware_concurrency http_clients count =
    let from = if count == hardware_concurrency then 0 else count in
    elim (get_elem? http_clients from) [ none ↦ none | some c ↦ some (c, (from + 1) % uint32_t) ]

-- What `sendRequestCoro` ends with.
pub data Sent : Type 0 where
  response : Text → Sent
  runtime_error : Text → Sent
  other_exception : Sent

pub data Output : Type 0 where
  logged : Line → Output
  printed : Text → Output

-- `task` within `create_lazy_task`: what is written, and whether an exception leaves it.
unfoldable pub lazy_task : Sent → List Output × Bool
lazy_task (response body) = (
  logged (info (codes "send http request...") []) ∷ logged (info (codes "{}") (body ∷ [])) ∷ [],
  false,
)
lazy_task (runtime_error what) =
    (logged (info (codes "send http request...") []) ∷ printed what ∷ [], false)
lazy_task other_exception = (logged (info (codes "send http request...") []) ∷ [], true)

-- The whole request: the client's turn is taken before it is sent to.
unfoldable pub request :
    (HttpClient → Text → Sent) → ℕ → List HttpClient → ℕ → Option ((List Output × Bool) × ℕ)
unfolding get_http_client lazy_task
request send hardware_concurrency http_clients count =
    elim (get_http_client hardware_concurrency http_clients count) [
      | none ↦ none
      | some (c, next) ↦ some (lazy_task (send c (codes "/SayHello/")), next)
    ]

-- The types of message that the handlers tell apart, and any other.
pub data WebSocketMessageType : Type 0 where
  text binary ping pong close unknown : WebSocketMessageType

-- `WebSocketChat::handleNewMessage`.
unfoldable pub handle_new_message : Text → WebSocketMessageType → List Line
handle_new_message message ping = info (codes "WebSocketChat recv a ping") [] ∷ []
handle_new_message message text = info (codes "WebSocketChat recv message: {}") (message ∷ []) ∷ []
handle_new_message message _ = []

-- What a handler does with its connection.
pub data Action : Type 0 where
  log : Line → Action
  send : Text → Action
  set_ping_message : Text → ℕ → Action
  shutdown stop : Action

abbrev pub handle_new_connection : List Action
handle_new_connection = send (codes "haha!!!") ∷ []

abbrev pub message_type : WebSocketMessageType → Text
message_type text = codes "text"
message_type pong = codes "pong"
message_type ping = codes "ping"
message_type binary = codes "binary"
message_type close = codes "Close"
message_type unknown = codes "Unknown"

-- The client's message handler.
unfoldable pub message_handler : Text → WebSocketMessageType → List Action
message_handler message type =
    log (info (codes "WebSocketClient recv: [{}] [{}]") (message_type type ∷ message ∷ []))
    ∷ shutdown
    ∷ []

-- The client's handler for the end of its connecting: whether the result is Ok.
unfoldable pub connected : Bool → List Action
connected false = log (info (codes "Failed to establish WebSocket connection!") []) ∷ stop ∷ []
connected true =
    log (info (codes "WebSocket connected!") [])
    ∷ set_ping_message (codes "123") 1
    ∷ send (codes "hello!")
    ∷ []
