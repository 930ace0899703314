-- ===== src/Drogon/Main.antt =====
-- src/test_drogon.cpp: the controllers of the service, and main.
use example.Base.{
  ℕ, Bool, true, false, Option, none, some, List, [], ◌∷◌, ◌++◌, map, if◌then◌else◌, Text, codes,
  eq_text,
}
use example.Asio.{info}
use example.Drogon.{HttpClient, make_clients, Sent, Output, logged, request}

-- The handlers of the controller SayHello, by the body of their response.
abbrev pub generic_hello : Text
generic_hello = codes "Hello, this is a generic hello message from the SayHello controller"

abbrev pub personalized_hello : Text
personalized_hello = codes "Hi there, this is another hello from the SayHello Controller"

-- `METHOD_LIST_BEGIN` to `METHOD_LIST_END`, both for GET. Drogon puts the controller's name before each
-- path, as the comment says.
abbrev pub method_list : List (Text × Text)
method_list = (codes "/", generic_hello) ∷ (codes "/hello", personalized_hello) ∷ []

abbrev pub paths_of : Text → List (Text × Text) → List (Text × Text)
paths_of name methods = map (λ m. (codes "/" ++ (name ++ m.0), m.1)) methods

-- The body with which the service answers a GET; `none` is a path that no handler has.
abbrev pub handler_at : Text → List (Text × Text) → Option Text
handler_at path [] = none
handler_at path ((p, body) ∷ methods) =
    if eq_text p path then some body else handler_at path methods

abbrev pub say_hello : Text → Option Text
say_hello path = handler_at path (paths_of (codes "SayHello") method_list)

-- What the functions that main hands to its event loop print; `id` is the text of the loop's thread. The
-- coroutine that `async_run` starts runs at once.
pub data LoopFunction : Type 0 where
  print_id queued : LoopFunction

abbrev pub lines : Text → LoopFunction → List Text
lines id print_id = id ∷ []
lines id queued = (codes "queueInLoop:" ++ id) ∷ (codes "queueInLoop async_run:" ++ id) ∷ []

-- The calls of main, in its own thread. `run_app` is the listener's thread that it starts first.
pub data Call : Type 0 where
  run_app : Text → ℕ → ℕ → Call
  sleep_for start_pool : ℕ → Call
  new_http_client : Text → HttpClient → Call
  new_web_socket_client : Text → ℕ → Call
  connect_to_server : Text → Call
  wrote : Output → Call
  quit_app : Call
  run_in_loop queue_in_loop : LoopFunction → Call
  quit_loop : Call
  print : Text → Call

-- How main ends: with 0, by an exception that nothing catches, or not as the language defines, where it
-- reads outside the vector of the clients.
pub data End : Type 0 where
  exited terminated undefined : End

abbrev pub log : Text → Call
log text = wrote (logged (info text []))

-- The block with a loop of its own.
abbrev pub loop_block : List Call
loop_block =
    start_pool 1
    ∷ run_in_loop print_id
    ∷ sleep_for 1
    ∷ queue_in_loop queued
    ∷ sleep_for 5
    ∷ quit_loop
    ∷ print (codes "end")
    ∷ []

-- main up to its request, for the clients and the loop of the web socket.
abbrev pub preparation : ℕ → List HttpClient → ℕ → List Call
preparation hardware_concurrency http_clients ws_loop =
    run_app (codes "127.0.0.1") 8848 4
    ∷ sleep_for 2
    ∷ log (codes "------------------start test drogon---------------------------")
    ∷ start_pool hardware_concurrency
    ∷ (map (new_http_client (codes "http://127.0.0.1:8848")) http_clients
        ++ (new_web_socket_client (codes "ws://127.0.0.1:8848") ws_loop
            ∷ connect_to_server (codes "/chat")
            ∷ sleep_for 2
            ∷ []))

-- What follows the request: `blockingWait` throws the exception that left the task.
abbrev pub conclusion : Bool → List Call × End
conclusion true = ([], terminated)
conclusion false = (quit_app ∷ log (codes "-----------------------") ∷ loop_block, exited)

-- main; `get_next_loop` is trantor's, and `send` what `sendRequestCoro` of a client ends with.
unfoldable pub main :
    {S : Type 0} → (S → ℕ × S) → (HttpClient → Text → Sent) → ℕ → S → List Call × End
unfolding make_clients request
main get_next_loop send hardware_concurrency s =
    let (http_clients, t) = make_clients get_next_loop hardware_concurrency s in
    let (ws_loop, u) = get_next_loop t in
    let before = preparation hardware_concurrency http_clients ws_loop in
    elim (request send hardware_concurrency http_clients 0) [
      | none ↦ (before ++ (log (codes "send http request...") ∷ []), undefined)
      | some ((outputs, escapes), count) ↦
          let (after, end) = conclusion escapes in (before ++ (map wrote outputs ++ after), end)
    ]
