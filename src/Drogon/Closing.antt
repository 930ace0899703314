-- ===== src/Drogon/Closing.antt =====
-- src/test_drogon.cpp: how far the closing handshake of the web socket has come.
use example.Base.{◌≡◌, refl, ap, Bool, true, false, List, [], ◌∷◌, ◌++◌, ◌⊎◌, inl, inr, Text, codes}
use example.Asio.{Line, info}
use example.Drogon.{close, text, ping, pong}
use example.Drogon.Chat.{Frame, close_frame, close_once, Answers, pongs, closes_too, silent}

-- What the client logs of a Close frame.
abbrev pub close_line : Text → Line
close_line payload = info (codes "WebSocketClient recv: [{}] [{}]") (codes "Close" ∷ payload ∷ [])

-- Whether the client has shut the connection down; the frames of each direction but for a Close frame;
-- what of a Close frame follows them; and the client's line of it.
pub data Closing
    : Bool → List Frame → List Frame → List Frame → List Frame → List Line → Type 0 where
  unshut : (to_server to_client : List Frame) → Closing false to_server to_client [] [] []
  sent :
      (to_server to_client : List Frame) → Closing true to_server to_client (close_frame ∷ []) [] []
  received : (to_client : List Frame) → Closing true [] to_client [] [] []
  answered :
      (to_client : List Frame) (payload : Text)
      → Closing true [] to_client [] ((payload, close) ∷ []) []
  over : (payload : Text) → Closing true [] [] [] [] (close_line payload ∷ [])

-- The server gets a frame that is not the last.
pub server_takes :
    {shut : Bool} {f : Frame} {q cq ts tc : List Frame} {last : List Line}
    → Closing shut (f ∷ q) cq ts tc last
    → (tc ≡ []) × ((cq' : List Frame) → Closing shut q cq' ts tc last)
server_takes {q = q} (unshut s c) = (refl, λ cq. unshut q cq)
server_takes {q = q} (sent s c) = (refl, λ cq. sent q cq)

-- The server gets the Close frame.
pub server_closes :
    {shut : Bool} {f : Frame} {rest cq tc : List Frame} {last : List Line}
    → Closing shut [] cq (f ∷ rest) tc last
    → (f ≡ close_frame)
      × (rest ≡ [])
      × (tc ≡ [])
      × Closing shut [] cq [] [] last
      × ((payload : Text) → Closing shut [] cq [] ((payload, close) ∷ []) last)
server_closes (sent s c) = (refl, refl, refl, received c, λ p. answered c p)

-- The client gets a frame that is not the last, and shuts the connection down.
pub client_takes :
    {shut : Bool} {f : Frame} {q sq ts tc : List Frame} {last : List Line}
    → Closing shut sq (f ∷ q) ts tc last
    → (last ≡ []) × Closing true sq q (ts ++ close_once shut) tc last
client_takes {q = q} (unshut s c) = (refl, sent s q)
client_takes {q = q} (sent s c) = (refl, sent s q)
client_takes {q = q} (received c) = (refl, received q)
client_takes {q = q} (answered c p) = (refl, answered q p)

-- The client gets the Close frame.
pub client_closes :
    {shut : Bool} {f : Frame} {rest sq ts : List Frame} {last : List Line}
    → Closing shut sq [] ts (f ∷ rest) last
    → (payload : Text) × (f ≡ (payload, close))
      × (rest ≡ [])
      × (last ≡ [])
      × (shut ≡ true)
      × Closing true sq [] (ts ++ close_once shut) [] (close_line payload ∷ [])
client_closes (answered c p) = (p, refl, refl, refl, refl, over p)

-- Before the shutdown.
pub not_yet :
    {shut : Bool} {sq cq ts tc : List Frame} {last : List Line}
    → Closing shut sq cq ts tc last
    → shut ≡ false
    → (ts ≡ []) × ((q : List Frame) → Closing shut q cq ts tc last)
not_yet (unshut s c) e = (refl, λ q. unshut q c)
not_yet (sent s c) e = absurd (cc)
not_yet (received c) e = absurd (cc)
not_yet (answered c p) e = absurd (cc)
not_yet (over p) e = absurd (cc)

-- What the client has logged of a Close frame.
pub last_lines :
    {shut : Bool} {sq cq ts tc : List Frame} {last : List Line}
    → Closing shut sq cq ts tc last
    → (last ≡ []) ⊎ ((payload : Text) × (last ≡ close_line payload ∷ []) × (shut ≡ true))
last_lines (unshut s c) = inl refl
last_lines (sent s c) = inl refl
last_lines (received c) = inl refl
last_lines (answered c p) = inl refl
last_lines (over p) = inr (p, refl, refl)

-- The server's side answers a message by nothing, a ping by a pong, and a Close frame by one or by
-- nothing.
pub answer_to_text :
    {f : Frame} {answer : List Frame} (m : Text) → Answers f answer → f ≡ (m, text) → answer ≡ []
answer_to_text m (pongs n) e = absurd (cc)
answer_to_text m (closes_too n p) e = absurd (cc)
answer_to_text m (silent f h) e = refl

pub answer_to_ping :
    {f : Frame} {answer : List Frame} (m : Text)
    → Answers f answer
    → f ≡ (m, ping)
    → answer ≡ (m, pong) ∷ []
answer_to_ping m (pongs n) e = cc
answer_to_ping m (closes_too n p) e = absurd (cc)
answer_to_ping m (silent f h) e = absurd (h (ap (λ g. g.1) e))

pub answer_to_close :
    {f : Frame} {answer : List Frame}
    → Answers f answer
    → f ≡ close_frame
    → (answer ≡ []) ⊎ ((payload : Text) × (answer ≡ (payload, close) ∷ []))
answer_to_close (pongs n) e = absurd (cc)
answer_to_close (closes_too n p) e = inr (p, refl)
answer_to_close (silent f h) e = inl refl
