-- ===== src/GreeterClient/Served.antt =====
-- include/greeter_async_client.h: the call, and the greeter server that answers it.
use example.Base.{
  codes, ap, ℕ, Bool, true, false, ◌≡◌, refl, none, some, List, [], ◌∷◌, ◌++◌, arith, Text, ◌⊎◌,
  inl, inr, Bool-cases,
}
use example.Server.{request_say_hello, initial, complete, handle_event, prefix, proceed_process}
use example.Server.Replies.{in_flight}
use example.GreeterClient.{
  Next, shut_down, event, returned, rpc_failed, Stub, GreeterClient, greeter_client, say_hello,
}
use example.GreeterClient.Main.{target_str, print_reply, client_thread}

-- What gRPC documents of a queue that has a call's `Finish` as its only operation and is not shut
-- down: `Next` returns that operation's tag, and its `ok` is true.
abbrev pub Documented : Stub → Type 0
Documented stub =
    (user : Text) (tag : ℕ)
    → (status_ok : Bool) × (message : Text) × (stub user tag ≡ event tag true status_ok message)

-- The call never aborts: it returns the reply of a call that succeeded, and "RPC failed" for one that
-- did not.
say_hello_returns :
    (client : GreeterClient) (user : Text)
    → Documented client.stub
    → (message : Text) × (((client.stub user 1 ≡ event 1 true true message)
          × (say_hello client user ≡ returned message))
        ⊎ ((client.stub user 1 ≡ event 1 true false message)
            × (say_hello client user ≡ returned rpc_failed)))
unfolding say_hello
say_hello_returns client user documented =
    let (status_ok, message, e) = documented user 1 in
    elim (Bool-cases status_ok) [
      | inl good ↦ (message, inl (rw (e, good) refl, rw (say_hello, e, good) refl))
      | inr bad ↦ (message, inr (rw (e, bad) refl, rw (say_hello, e, bad) refl))
    ]

-- The thread always prints one line: "Greeter received: " with the reply to "world" on the channel to
-- the greeter's port if the call succeeds, and with "RPC failed" if it does not.
pub client_thread_prints :
    {Channel : Type 0} (create_channel : Text → Channel) (new_stub : Channel → Stub)
    → Documented (new_stub (create_channel (codes "localhost:50051")))
    → let finished = new_stub (create_channel (codes "localhost:50051")) (codes "world") 1 in
      (message : Text) × (((finished ≡ event 1 true true message)
          × (client_thread create_channel new_stub ≡ some (codes "Greeter received: " ++ message)))
        ⊎ ((finished ≡ event 1 true false message)
            × (client_thread create_channel new_stub
                ≡ some (codes "Greeter received: RPC failed"))))
unfolding client_thread
client_thread_prints create_channel new_stub documented =
    let client = greeter_client new_stub (create_channel target_str) in
    let (message, which) = say_hello_returns client (codes "world") documented in
    elim which [
      | inl (sent, got) ↦ (message, inl (sent, ap print_reply got))
      | inr (sent, got) ↦ (message, inr (sent, ap print_reply got))
    ]

-- The first reply that is on its way.
abbrev pub first_reply : ℕ → List Text → Next
first_reply tag [] = shut_down
first_reply tag (message ∷ messages) = event tag true true message

-- The server's answer to its first client: the objects are at the addresses a and b.
unfoldable pub answer : ℕ → ℕ → Text → ℕ → Next
answer a b user tag =
    elim (handle_event b a true (complete 0 (request_say_hello a) user (initial a))) [
      | none ↦ shut_down
      | some s ↦ first_reply tag (in_flight s.outstanding)
    ]

-- A user who calls the greeter server as its first client gets "Hello " and the own name back.
pub greeted :
    (a b : ℕ) (user : Text)
    → say_hello (greeter_client (λ channel. answer a b) target_str) user ≡ returned (prefix ++ user)
unfolding say_hello answer handle_event initial proceed_process
greeted a b user = ground arith
