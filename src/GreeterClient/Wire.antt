-- ===== src/GreeterClient/Wire.antt =====
-- include/greeter_async_client.h, include/greeter_async_server.h and src/helloworld.pb.cc together: a
-- call whose request and reply are bytes on their way.
use example.Base.{
  ℕ, suc, ◌<◌, ◌≡◌, refl, ap, true, false, Option, none, some, [], ◌∷◌, ◌++◌, All, Text, arith,
  if◌then◌else◌, Bool-cases, inl, inr,
}
use example.Server.{prefix, handle_event, initial, proceed_process}
use example.Proto.{
  Protobuf, shared_ctor, set_text, internal_serialize, internal_parse, Parsed, parsed, failure,
  out_of_fuel,
}
use example.Proto.Wire.{WireFormat, parse-serialize, parse_refuses}
use example.GreeterClient.{
  Next, shut_down, event, returned, Stub, greeter_client, on_next, say_hello,
}
use example.GreeterClient.Served.{answer}
use example.GreeterClient.Main.{target_str}

-- The text of a message that was read to the end of its bytes.
abbrev pub text_of : {U : Type 0} {protobuf : Protobuf U} → Parsed protobuf → Option Text
text_of (parsed m none []) = some m.text
text_of (parsed m none (b ∷ bytes)) = none
text_of (parsed m (some t) bytes) = none
text_of failure = none
text_of out_of_fuel = none

-- A text that is set in a new message, written, and read into a new message on the other side.
abbrev pub carried : {U : Type 0} → Protobuf U → ℕ → Text → Option Text
carried protobuf fuel text = text_of (
    internal_parse protobuf fuel (shared_ctor protobuf)
      (internal_serialize protobuf (set_text protobuf text (shared_ctor protobuf))))

-- What the runtime documents of the check of the fields: no text at all is valid, and so is a valid
-- text after ASCII characters.
pub record Utf8 {U : Type 0} (request reply : Protobuf U) : Type 0 where
  pub empty_valid : request.verify_utf8 [] ≡ true
  pub after_ascii :
      (ascii s : Text)
      → All (λ c. c < 128) ascii
      → request.verify_utf8 s ≡ true
      → reply.verify_utf8 (ascii ++ s) ≡ true

-- How a reply comes back; `unread` is what `Next` gives where a message cannot be read.
abbrev pub reply_carried : {U : Type 0} → Protobuf U → ℕ → Next → Next → Next
reply_carried reply fuel unread shut_down = shut_down
reply_carried reply fuel unread (event tag ok status_ok message) =
    elim (carried reply fuel message) [ none ↦ unread | some m ↦ event tag ok status_ok m ]

-- The server behind a channel that carries bytes: `request` and `reply` are the runtime for the two
-- messages.
abbrev pub wire_stub : {U : Type 0} → Protobuf U → Protobuf U → ℕ → Next → ℕ → ℕ → Stub
wire_stub request reply fuel unread a b user tag = elim (carried request fuel user) [
  | none ↦ unread
  | some name ↦ reply_carried reply fuel unread (answer a b name tag)
]

answer_lem :
    (a b : ℕ) (user : Text) (tag : ℕ) → answer a b user tag ≡ event tag true true (prefix ++ user)
unfolding answer handle_event initial proceed_process
answer_lem a b user tag = ground arith

module _ {U : Type 0} (protobuf : Protobuf U) (wire : WireFormat protobuf)
    (none_known : protobuf.have_unknown_fields protobuf.no_unknown_fields ≡ false) where
  valid_carried :
      (fuel : ℕ) (s : Text) → protobuf.verify_utf8 s ≡ true → carried protobuf (suc fuel) s ≡ some s
  valid_carried fuel s valid = ap text_of (
      parse-serialize protobuf wire (set_text protobuf s (shared_ctor protobuf)) fuel refl
        none_known valid)

  invalid_carried :
      (fuel : ℕ) (s : Text)
      → protobuf.verify_utf8 [] ≡ true
      → protobuf.verify_utf8 s ≡ false
      → carried protobuf (suc fuel) s ≡ none
  invalid_carried fuel [] fine invalid = absurd (cc)
  invalid_carried fuel (c ∷ cs) fine invalid = ap text_of (
      parse_refuses protobuf wire (set_text protobuf (c ∷ cs) (shared_ctor protobuf)) c cs fuel refl
        none_known refl invalid)

module _ {U : Type 0} (request reply : Protobuf U) (request_wire : WireFormat request)
    (reply_wire : WireFormat reply) (utf8 : Utf8 request reply)
    (request_known : request.have_unknown_fields request.no_unknown_fields ≡ false)
    (reply_known : reply.have_unknown_fields reply.no_unknown_fields ≡ false) where
  -- Over the wire, the first client of the server gets "Hello " with its own name back if the name is
  -- valid UTF-8. If it is not, the client sends it all the same, the server cannot read the request, and
  -- the call returns what the queue gives in that case. One unit of fuel is enough for the parsers.
  pub greeted_over_wire :
      (fuel : ℕ) (unread : Next) (a b : ℕ) (user : Text)
      → say_hello
          (greeter_client (λ channel. wire_stub request reply (suc fuel) unread a b) target_str)
          user
        ≡ (if request.verify_utf8 user then returned (prefix ++ user) else on_next unread)
  unfolding say_hello internal_parse internal_serialize
  greeted_over_wire fuel unread a b user = elim (Bool-cases (request.verify_utf8 user)) [
    | inl valid ↦
        rw
          (
            valid,
            valid_carried request request_wire request_known fuel user valid,
            answer_lem a b user 1,
            valid_carried reply reply_wire reply_known fuel (prefix ++ user)
                (utf8.after_ascii prefix user (omega arith) valid),
          )
          refl
    | inr invalid ↦
        rw
          (
            invalid,
            invalid_carried request request_wire request_known fuel user utf8.empty_valid invalid,
          )
          refl
  ]
