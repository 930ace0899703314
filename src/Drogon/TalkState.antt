-- ===== src/Drogon/TalkState.antt =====
-- src/test_drogon.cpp: what holds of the two sides of the web socket at every moment.
use example.Base.{
  ◌≡◌, refl, Bool, true, false, some, List, [], ◌∷◌, ◌++◌, ◌⊎◌, inl, inr, Text, codes, append-nil,
  if◌then◌else◌,
}
use example.Asio.{Line, info}
use example.Drogon.{text, ping, pong, connected}
use example.Drogon.Direction.{Side, Side-sends}
use example.Drogon.Chat.{Frame, Chat, opened, Answers}
use example.Drogon.Closing.{Closing, unshut, answer_to_text, answer_to_ping}

abbrev pub connected_line : Line
connected_line = info (codes "WebSocket connected!") []

abbrev pub received_line : Text → Text → Line
received_line type message = info (codes "WebSocketClient recv: [{}] [{}]") (type ∷ message ∷ [])

abbrev pub hello_line : Line
hello_line = info (codes "WebSocketChat recv message: {}") (codes "hello!" ∷ [])

abbrev pub ping_line : Line
ping_line = info (codes "WebSocketChat recv a ping") []

abbrev pub haha_line : Line
haha_line = received_line (codes "text") (codes "haha!!!")

abbrev pub pong_line : Line
pong_line = received_line (codes "pong") (codes "123")

abbrev pub hello : Frame
hello = (codes "hello!", text)

abbrev pub ping_frame : Frame
ping_frame = (codes "123", ping)

abbrev pub haha : Frame
haha = (codes "haha!!!", text)

abbrev pub pong_frame : Frame
pong_frame = (codes "123", pong)

abbrev pub server_end : Line
server_end = info (codes "WebSocketChat websocket closed!") []

abbrev pub client_end : Line
client_end = info (codes "WebSocket connection closed!") []

-- The last line of a log.
abbrev pub ending : Bool → Line → List Line
ending closed line = if closed then line ∷ [] else []

-- The frames on their way to each side but for a Close frame, and that one; what each side has logged of
-- the former, and the client of the latter.
pub record Talk (c : Chat) : Type 0 where
  pub server_queue : List Frame
  pub client_queue : List Frame
  pub server_close : List Frame
  pub client_close : List Frame
  pub server_body : List Line
  pub client_body : List Line
  pub last : List Line
  pub heard : Bool
  pub timed : c.ping_message ≡ some (codes "123")
  pub server_side : Side hello ping_frame hello_line ping_line server_queue server_body heard
  pub client_side : Side haha pong_frame haha_line pong_line client_queue client_body c.shut
  pub server_gets_all : c.to_server ≡ server_queue ++ server_close
  pub client_gets_all : c.to_client ≡ client_queue ++ client_close
  pub closing : Closing c.shut server_queue client_queue server_close client_close last
  pub server_logged : c.server_log ≡ server_body ++ ending c.closed server_end
  pub client_logged :
      c.client_log ≡ connected_line ∷ ((client_body ++ last) ++ ending c.closed client_end)
  pub closed_shut : c.closed ≡ true → c.shut ≡ true

pub opened-Talk : Talk opened
unfolding opened connected
opened-Talk = record {
  server_queue = hello ∷ [];
  client_queue = haha ∷ [];
  server_close = [];
  client_close = [];
  server_body = [];
  client_body = [];
  last = [];
  heard = false;
  timed = refl;
  server_side = inl (0, refl, refl, refl);
  client_side = inl (0, refl, refl, refl);
  server_gets_all = refl;
  client_gets_all = refl;
  closing = unshut _ _;
  server_logged = refl;
  client_logged = refl;
  closed_shut = λ e. absurd (cc);
}

-- A log that goes on, and one that ends.
pub logs_more :
    (logged body more : List Line) (closed : Bool) (last : Line)
    → closed ≡ false
    → logged ≡ body ++ ending closed last
    → logged ++ more ≡ (body ++ more) ++ ending closed last
logs_more logged body more closed last going e =
    rw (e, going, append-nil body, append-nil (body ++ more)) refl

pub logs_end :
    (logged body : List Line) (closed : Bool) (last : Line)
    → closed ≡ false
    → logged ≡ body ++ ending closed last
    → logged ++ (last ∷ []) ≡ body ++ ending true last
logs_end logged body closed last going e = rw (e, going, append-nil body) refl

-- What the answer to a frame adds to the frames on their way to the client.
pub answered-Side :
    (queue : List Frame) (body : List Line) (shut : Bool) (f : Frame) (answer : List Frame)
    → (f ≡ hello) ⊎ (f ≡ ping_frame)
    → Answers f answer
    → Side haha pong_frame haha_line pong_line queue body shut
    → Side haha pong_frame haha_line pong_line (queue ++ answer) body shut
answered-Side queue body shut f answer (inl e) a side =
    rw (answer_to_text (codes "hello!") a e, append-nil queue) side
answered-Side queue body shut f answer (inr e) a side =
    rw (answer_to_ping (codes "123") a e)
      (Side-sends haha pong_frame haha_line pong_line queue body shut side)
