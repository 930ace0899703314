-- ===== src/Drogon/Messages.antt =====
-- src/test_drogon.cpp: what the client's log tells of a message.
use example.Base.{◌≡◌, refl, sym, ap, ◌∙◌, Text, if◌then◌else◌, eq_text}
use example.Drogon.{
  WebSocketMessageType, message_handler, message_type, text, binary, ping, pong, close, unknown,
}

-- The type that a name is of.
abbrev type_named : Text → WebSocketMessageType
type_named name =
    if eq_text name (message_type text)
    then text
    else if eq_text name (message_type pong)
    then pong
    else if eq_text name (message_type ping)
    then ping
    else if eq_text name (message_type binary)
    then binary
    else if eq_text name (message_type close)
    then close
    else unknown

type_named_lem : (t : WebSocketMessageType) → type_named (message_type t) ≡ t
type_named_lem text = refl
type_named_lem binary = refl
type_named_lem ping = refl
type_named_lem pong = refl
type_named_lem close = refl
type_named_lem unknown = refl

-- The client's log line tells the messages apart: where its handler does the same for two messages,
-- they have the same text and are of the same type.
pub message_handler-injective :
    (m₁ m₂ : Text) (t₁ t₂ : WebSocketMessageType)
    → message_handler m₁ t₁ ≡ message_handler m₂ t₂
    → (m₁ ≡ m₂) × (t₁ ≡ t₂)
unfolding message_handler
message_handler-injective m₁ m₂ t₁ t₂ e =
    let names : message_type t₁ ≡ message_type t₂ = cc in
    (cc, sym (type_named_lem t₁) ∙ ap type_named names ∙ type_named_lem t₂)
