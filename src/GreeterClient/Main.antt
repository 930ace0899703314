-- ===== src/GreeterClient/Main.antt =====
-- src/test.cpp: the thread of `main` that calls the greeter. The functions of gRPC that make a channel
-- and a stub are arguments.
use example.Base.{Option, none, some, Text, codes, ◌++◌}
use example.GreeterClient.{Returned, returned, aborted, Stub, greeter_client, say_hello}

abbrev pub target_str : Text
target_str = codes "localhost:50051"

abbrev pub user : Text
user = codes "world"

-- The line that the thread prints; `none` is the end of the program by an assertion.
abbrev pub print_reply : Returned → Option Text
print_reply (returned reply) = some (codes "Greeter received: " ++ reply)
print_reply aborted = none

unfoldable pub client_thread :
    {Channel : Type 0} → (Text → Channel) → (Channel → Stub) → Option Text
unfolding say_hello
client_thread create_channel new_stub =
    print_reply (say_hello (greeter_client new_stub (create_channel target_str)) user)
