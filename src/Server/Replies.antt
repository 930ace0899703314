-- ===== src/Server/Replies.antt =====
-- Which replies the greeter server sends: one for each client, with the client's own name.
use mathlib.Core.List.{Perm, perm_middle}
use mathlib.Core.List.Perm
use example.Base.{
  ℕ, zero, suc, ◌≡◌, refl, ap, none, some, List, [], ◌∷◌, ◌++◌, map, get_elem?, Text, true, arith,
  ◌∙◌,
}
use example.Server.{
  Operation, request_say_hello, finish_rpc, ServerImpl, prefix, remove_at, complete, handle_event,
  initial, tag,
}
use example.Server.Ops.{Fits, AllFit-get}
use example.Server.Safety.{IsValid, good_event, initial-IsValid}

-- The replies on their way to a client.
abbrev pub in_flight : List Operation → List Text
in_flight [] = []
in_flight (request_say_hello a ∷ ops) = in_flight ops
in_flight (finish_rpc a m ∷ ops) = m ∷ in_flight ops

in_flight_request :
    (i a : ℕ) (ops : List Operation)
    → get_elem? ops i ≡ some (request_say_hello a)
    → in_flight (remove_at i ops) ≡ in_flight ops
in_flight_request i a [] e = absurd (cc)
in_flight_request zero a (request_say_hello b ∷ ops) e = refl
in_flight_request zero a (finish_rpc b m ∷ ops) e = absurd (cc)
in_flight_request (suc i) a (request_say_hello b ∷ ops) e = in_flight_request i a ops e
in_flight_request (suc i) a (finish_rpc b m ∷ ops) e = ap (◌∷◌ m) (in_flight_request i a ops e)

in_flight_reply :
    (i a : ℕ) (m : Text) (ops : List Operation)
    → get_elem? ops i ≡ some (finish_rpc a m)
    → Perm (in_flight ops) (m ∷ in_flight (remove_at i ops))
in_flight_reply i a m [] e = absurd (cc)
in_flight_reply zero a m (request_say_hello b ∷ ops) e = absurd (cc)
in_flight_reply zero a m (finish_rpc b k ∷ ops) e = Perm.cons' (ground arith) Perm.rfl
in_flight_reply (suc i) a m (request_say_hello b ∷ ops) e = in_flight_reply i a m ops e
in_flight_reply (suc i) a m (finish_rpc b k ∷ ops) e =
    Perm.trans (Perm.cons k (in_flight_reply i a m ops e)) (Perm.swap m k _)

-- What a client called `name` is told.
abbrev pub greeting : Text → Text
greeting name = prefix ++ name

-- The names of the clients served so far and the replies that were sent, over the events of a run.
pub data Run (s : ServerImpl) : List Text → List Text → ServerImpl → Type 0 where
  begins : Run s [] [] s
  arrives :
      {names sent : List Text} {t u : ServerImpl} (i a address : ℕ) (name : Text)
      → Run s names sent t
      → get_elem? t.outstanding i ≡ some (request_say_hello a)
      → t.heap address ≡ none
      → handle_event address a true (complete i (request_say_hello a) name t) ≡ some u
      → Run s (name ∷ names) sent u
  delivered :
      {names sent : List Text} {t u : ServerImpl} (i a address : ℕ) (m : Text)
      → Run s names sent t
      → get_elem? t.outstanding i ≡ some (finish_rpc a m)
      → t.heap address ≡ none
      → handle_event address a true (complete i (finish_rpc a m) [] t) ≡ some u
      → Run s names (m ∷ sent) u

event_keeps_IsValid :
    (t u : ServerImpl) (i address : ℕ) (op : Operation) (name : Text)
    → IsValid t
    → get_elem? t.outstanding i ≡ some op
    → t.heap address ≡ none
    → handle_event address (tag op) true (complete i op name t) ≡ some u
    → IsValid u
event_keeps_IsValid t u i address op name v there free e =
    let (w, f, x) = good_event t i address op name v there free in
    let same : w ≡ u = cc in rw (← same) x

arrives-outstanding :
    (t u : ServerImpl) (i a address : ℕ) (name : Text)
    → Fits (t.heap a) (request_say_hello a)
    → handle_event address a true (complete i (request_say_hello a) name t) ≡ some u
    → u.outstanding
      ≡ finish_rpc a (greeting name) ∷ request_say_hello address ∷ remove_at i t.outstanding
unfolding handle_event
arrives-outstanding t u i a address name fit e = ground arith

pub delivered-outstanding :
    (t u : ServerImpl) (i a address : ℕ) (m : Text)
    → Fits (t.heap a) (finish_rpc a m)
    → handle_event address a true (complete i (finish_rpc a m) [] t) ≡ some u
    → u.outstanding ≡ remove_at i t.outstanding
unfolding handle_event
delivered-outstanding t u i a address m fit e = ground arith

pub Run-IsValid :
    (address : ℕ) {names sent : List Text} {t : ServerImpl}
    → Run (initial address) names sent t
    → IsValid t
Run-IsValid address begins = initial-IsValid address
Run-IsValid address (arrives {t = t} {u = u} i a new name r there free e) =
    event_keeps_IsValid t u i new (request_say_hello a) name (Run-IsValid address r) there free e
Run-IsValid address (delivered {t = t} {u = u} i a new m r there free e) =
    event_keeps_IsValid t u i new (finish_rpc a m) [] (Run-IsValid address r) there free e

-- After any run, the replies sent and those still on their way are, taken together and up to order,
-- exactly the greetings of the clients that arrived, one for each.
pub replies_answer_clients :
    (address : ℕ) {names sent : List Text} {t : ServerImpl}
    → Run (initial address) names sent t
    → Perm (sent ++ in_flight t.outstanding) (map greeting names)
replies_answer_clients address begins = unfold initial in Perm.nil
replies_answer_clients address
      (arrives {names = names} {sent = sent} {t = t} {u = u} i a new name r there free e) =
    let v = Run-IsValid address r in
    let fit = AllFit-get t.heap i t.outstanding (request_say_hello a) v.fitting there in
    let flight : in_flight u.outstanding ≡ greeting name ∷ in_flight t.outstanding =
      ap in_flight (arrives-outstanding t u i a new name fit e)
      ∙ ap (◌∷◌ (greeting name)) (in_flight_request i a t.outstanding there) in
    rw flight (
      Perm.trans (perm_middle sent (in_flight t.outstanding))
        (Perm.cons (greeting name) (replies_answer_clients address r)))
replies_answer_clients address
      (delivered {names = names} {sent = sent} {t = t} {u = u} i a new m r there free e) =
    let v = Run-IsValid address r in
    let fit = AllFit-get t.heap i t.outstanding (finish_rpc a m) v.fitting there in
    let flight : in_flight u.outstanding ≡ in_flight (remove_at i t.outstanding) =
      ap in_flight (delivered-outstanding t u i a new m fit e) in
    rw flight (
      Perm.trans (Perm.symm (perm_middle sent (in_flight (remove_at i t.outstanding)))) (
        Perm.trans
          (Perm.append (Perm.refl sent) (Perm.symm (in_flight_reply i a m t.outstanding there)))
          (replies_answer_clients address r)))
