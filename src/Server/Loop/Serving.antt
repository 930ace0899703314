-- ===== src/Server/Loop/Serving.antt =====
-- The loop of `HandleRpcs` while the server runs, and when it is shut down.
use mathlib.Core.Path.{subst}
use example.Base.{
  ℕ, zero, suc, ◌≤◌, ◌≡◌, ◌⊎◌, Bool-cases, refl, ap, ◌∙◌, Bool, true, false, none, some, List, [],
  ◌∷◌, arith, get_elem?, length, inl, inr, Text,
}
use example.Server.{ServerImpl, Operation, request_say_hello, finish_rpc, initial, remove_at}
use example.Server.Ops.{AllFit-get}
use example.Server.Safety.{IsValid, good_event, initial-IsValid}
use example.Server.Replies.{delivered-outstanding}
use example.Server.Loop.{
  Next, Loop, completed, serving, aborted, on_next, rounds, handle_rpcs, run, destroy,
  shutdown_server, shutdown_queue,
}

-- What gRPC documents of the `ok` of an operation while the server is not shut down: a request for a
-- call has it, and a `Finish` need not, since its call may be dead.
abbrev pub OkWhileServing : Operation → Bool → Type 0
OkWhileServing (request_say_hello a) ok = ok ≡ true
OkWhileServing (finish_rpc a m) ok = Unit

-- What gRPC documents of `Next` on a queue that is not shut down: it returns an operation that is
-- outstanding; and the allocator gives a free address.
pub record Serves {S : Type 0} (next : S → ServerImpl → Next × S) (st : S) (s : ServerImpl)
    : Type 0 where
  pub index : ℕ
  pub op : Operation
  pub ok : Bool
  pub name : Text
  pub address : ℕ
  pub there : get_elem? s.outstanding index ≡ some op
  pub free : s.heap address ≡ none
  pub allowed : OkWhileServing op ok
  pub returns : (next st s).0 ≡ completed index ok name address

-- So many rounds from a valid state: each leads to a valid state, until a `Finish` comes back without
-- `ok`, at which the loop aborts.
pub data Rounds {S : Type 0} (next : S → ServerImpl → Next × S)
    : ℕ → S → ServerImpl → Loop → Type 0 where
  still_serving : {st : S} {s : ServerImpl} → IsValid s → Rounds next zero st s (serving s)
  a_round :
      {fuel : ℕ} {st : S} {s t : ServerImpl} {loop : Loop}
      → IsValid s
      → on_next (next st s).0 s ≡ serving t
      → Rounds next fuel (next st s).1 t loop
      → Rounds next (suc fuel) st s loop
  dead_call :
      {fuel : ℕ} {st : S} {s : ServerImpl} (i a : ℕ) (m name : Text) (address : ℕ)
      → IsValid s
      → get_elem? s.outstanding i ≡ some (finish_rpc a m)
      → (next st s).0 ≡ completed i false name address
      → Rounds next (suc fuel) st s aborted

module _ {S : Type 0} (next : S → ServerImpl → Next × S) where
  good_round :
      (st : S) (s : ServerImpl) (v : Serves next st s)
      → v.ok ≡ true
      → IsValid s
      → (t : ServerImpl) × (on_next (next st s).0 s ≡ serving t) × IsValid t
  unfolding on_next
  good_round st s v good valid =
      let (t, done, kept) = good_event s v.index v.address v.op v.name valid v.there v.free in
      (t, rw (v.returns, on_next, v.there, good, done) refl, kept)

  dead_operation :
      (op : Operation) (ok : Bool)
      → OkWhileServing op ok
      → ok ≡ false
      → (a : ℕ) × (m : Text) × (op ≡ finish_rpc a m)
  dead_operation (request_say_hello a) ok good bad = absurd (cc)
  dead_operation (finish_rpc a m) ok good bad = (a, m, refl)

  rounds-Rounds :
      ((st : S) (s : ServerImpl) → IsValid s → Serves next st s)
      → (fuel : ℕ) (st : S) (s : ServerImpl) → IsValid s
      → Rounds next fuel st s (rounds next fuel st s)
  unfolding rounds on_next
  rounds-Rounds serves zero st s valid = still_serving valid
  rounds-Rounds serves (suc fuel) st s valid =
      let v = serves st s valid in
      elim (Bool-cases v.ok) [
        | inl good ↦
            let (t, once, kept) = good_round st s v good valid in
            rw (once, rounds) (a_round valid once (rounds-Rounds serves fuel (next st s).1 t kept))
        | inr bad ↦
            let (a, m, e) = dead_operation v.op v.ok v.allowed bad in
            rw (v.returns, rounds, on_next, v.there, bad)
              (dead_call v.index a m v.name v.address valid (v.there ∙ ap some e)
                (v.returns ∙ rw bad refl))
      ]

-- While the server is not shut down, `Run` never returns, and follows no dangling pointer: its loop goes
-- on from one valid state to the next, whatever comes back, until a `Finish` whose call is dead comes
-- back without `ok`, where the assertion ends the program. The pointers that `Run` leaves let the
-- destructor shut down the server and then the queue if the server was built, and make it call through
-- null if it was not.
pub run_goes_on :
    {S : Type 0} (next : S → ServerImpl → Next × S) (queue server address fuel : ℕ) (st : S)
    → ((st : S) (s : ServerImpl) → IsValid s → Serves next st s)
    → let (calls, pointers, loop) = run next queue (some server) address fuel st in
      let (calls', pointers', loop') = run next queue none address fuel st in
      Rounds next fuel st (initial address) loop
      × (destroy pointers ≡ some (shutdown_server server ∷ shutdown_queue queue ∷ []))
      × (destroy pointers' ≡ none)
unfolding run destroy handle_rpcs
run_goes_on next queue server address fuel st serves =
    (rounds-Rounds next serves fuel st (initial address) (initial-IsValid address), refl, refl)

-- What gRPC documents of `Next` once the server is shut down: an operation that is outstanding still
-- comes back, a request for a call with `ok` false.
abbrev pub OkOf : Operation → Bool → Type 0
OkOf (request_say_hello a) ok = ok ≡ false
OkOf (finish_rpc a m) ok = Unit

pub record Drains {S : Type 0} (next : S → ServerImpl → Next × S) (st : S) (s : ServerImpl)
    : Type 0 where
  pub index : ℕ
  pub op : Operation
  pub ok : Bool
  pub name : Text
  pub address : ℕ
  pub there : get_elem? s.outstanding index ≡ some op
  pub free : s.heap address ≡ none
  pub refused : OkOf op ok
  pub returns : (next st s).0 ≡ completed index ok name address

length-remove_at :
    {A : Type 0} (xs : List A) (i : ℕ) (x : A)
    → get_elem? xs i ≡ some x
    → suc (length (remove_at i xs)) ≡ length xs
length-remove_at [] i x e = absurd (cc)
length-remove_at (y ∷ xs) zero x e = refl
length-remove_at (y ∷ xs) (suc i) x e = ap suc (length-remove_at xs i x e)

module _ {S : Type 0} (next : S → ServerImpl → Next × S) (st : S) (s : ServerImpl)
    (valid : IsValid s) where
  -- A round after the shutdown: it stops the loop, or a reply is gone.
  round_shrinks :
      (d : Drains next st s) (op : Operation)
      → d.op ≡ op
      → (on_next (next st s).0 s ≡ aborted)
        ⊎ ((t : ServerImpl) × (on_next (next st s).0 s ≡ serving t)
            × IsValid t
            × (suc (length t.outstanding) ≡ length s.outstanding))
  unfolding on_next
  round_shrinks d (request_say_hello a) e =
      let there : get_elem? s.outstanding d.index ≡ some (request_say_hello a) = rw (← e) d.there in
      let refused : d.ok ≡ false = subst (λ (o : Operation). OkOf o d.ok) e d.refused in
      inl (rw (d.returns, on_next, there, refused) refl)
  round_shrinks d (finish_rpc a m) e =
      let op = finish_rpc a m in
      let there : get_elem? s.outstanding d.index ≡ some op = d.there ∙ ap some e in
      elim (Bool-cases d.ok) [
        | inr bad ↦ inl (rw (d.returns, on_next, there, bad) refl)
        | inl good ↦
            let (t, done, kept) = good_event s d.index d.address op d.name valid there d.free in
            let fit = AllFit-get s.heap d.index s.outstanding op valid.fitting there in
            let gone = delivered-outstanding s t d.index a d.address m fit done in
            inr (
              t,
              rw (d.returns, on_next, there, good, done) refl,
              kept,
              rw gone (length-remove_at s.outstanding d.index op there),
            )
      ]

-- There is no shutdown handling, as the comment says: once the server is shut down, the loop is stopped
-- by its assertion on `ok`, after at most one round for each operation that is outstanding, and follows
-- no dangling pointer before.
pub shutdown_aborts :
    {S : Type 0} (next : S → ServerImpl → Next × S) (fuel : ℕ) (st : S) (s : ServerImpl)
    → ((st : S) (s : ServerImpl) → IsValid s → Drains next st s)
    → IsValid s
    → length s.outstanding ≤ fuel
    → rounds next fuel st s ≡ aborted
unfolding rounds
shutdown_aborts next zero st s drains valid enough =
    let d = drains st s valid in
    absurd (omega (arith, enough, length-remove_at s.outstanding d.index d.op d.there))
shutdown_aborts next (suc fuel) st s drains valid enough =
    let d = drains st s valid in
    elim (round_shrinks next st s valid d d.op refl) [
      | inl stopped ↦ rw (stopped, rounds) refl
      | inr (t, once, kept, shorter) ↦
          rw (once, rounds)
            (shutdown_aborts next fuel (next st s).1 t drains kept (omega (arith, enough, shorter)))
    ]
