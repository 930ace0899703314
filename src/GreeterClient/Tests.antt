-- ===== src/GreeterClient/Tests.antt =====
-- A call by the user called world, on a channel that always answers and on the server.
use example.Base.{arith, ◌<◌, All, [], ◌∷◌, ℕ, true, false, ◌≡◌, refl, ◌++◌, Text, codes}
use example.Server.{prefix}
use example.GreeterClient.{Next, shut_down, event, returned, aborted, say_hello, greeter_client}
use example.Proto.Bytes.{ascii, bytes_runtime, bytes_wire}
use example.GreeterClient.Wire.{Utf8, wire_stub, greeted_over_wire}
use example.GreeterClient.Served.{Documented}
use example.GreeterClient.Main.{target_str}

abbrev world : Text
world = codes "world"

-- A channel on which every call fails.
abbrev failing : Text → ℕ → Next
failing user tag = event tag true false user

failing-Documented : Documented failing
failing-Documented user tag = (false, user, refl)

ascii_after : (xs s : Text) → All (λ c. c < 128) xs → ascii s ≡ true → ascii (xs ++ s) ≡ true
ascii_after [] s low valid = valid
ascii_after (x ∷ xs) s low valid = ground (arith, low, ascii_after xs s low.1 valid)

ascii-Utf8 : Utf8 bytes_runtime bytes_runtime
ascii-Utf8 = record { empty_valid = refl; after_ascii = ascii_after }

greeted_over_wire_example :
    say_hello
      (greeter_client (λ channel. wire_stub bytes_runtime bytes_runtime 1 shut_down 7 9) target_str)
      world
    ≡ returned (prefix ++ world)
greeted_over_wire_example =
    greeted_over_wire bytes_runtime bytes_runtime bytes_wire bytes_wire ascii-Utf8 refl refl 0
      shut_down 7 9 world

-- A name that is no ASCII text.
refused :
    say_hello
      (greeter_client (λ channel. wire_stub bytes_runtime bytes_runtime 1 shut_down 7 9) target_str)
      (195 ∷ 40 ∷ [])
    ≡ aborted
refused =
    greeted_over_wire bytes_runtime bytes_runtime bytes_wire bytes_wire ascii-Utf8 refl refl 0
      shut_down 7 9 (195 ∷ 40 ∷ [])
