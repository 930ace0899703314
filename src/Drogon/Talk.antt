-- ===== src/Drogon/Talk.antt =====
-- src/test_drogon.cpp: what the two sides of the web socket come to log.
use example.Base.{◌≡◌, Bool, true, List, [], ◌∷◌, ◌⊎◌, Text}
use example.Asio.{Line}
use example.Drogon.Chat.{Chat}
use example.Drogon.Closing.{close_line}

-- The lines that the client may have of a Close frame, which it can get only after its shutdown.
abbrev pub CloseLines : Bool → List Line → Type 0
CloseLines shut last =
    (last ≡ []) ⊎ ((payload : Text) × (last ≡ close_line payload ∷ []) × (shut ≡ true))
