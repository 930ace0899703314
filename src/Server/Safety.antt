-- ===== src/Server/Safety.antt =====
-- The greeter server never follows a dangling tag, leaks no object and always has one object waiting
-- for the next client.
use example.Base.{
  ℕ, ◌+◌, ◌≡◌, refl, true, false, Option, none, some, [], ◌++◌, inl, inr, arith, ◌==◌,
  if◌then◌else◌, get_elem?, Text, Option-cases, Bool,
}
use example.Server.{
  here, process, finish, CallData, Operation, request_say_hello, finish_rpc, ServerImpl, update,
  tag, put, prefix, handle_event, remove_at, complete, proceed_process, Reach, initial, Step, event,
  next, write_request, create,
}
use example.Server.Ops.{
  count_tag, count_requests, Fits, AllFit, count_tag-remove_at, count_requests-remove_at,
  AllFit-remove_at, AllFit-get, AllFit-update,
}

abbrev pub alive : Option CallData → ℕ
alive none = 0
alive (some c) = 1

-- What holds between two events: the outstanding operations and the live objects correspond one to
-- one, each object is in the state that its operation stands for, and one operation waits for a
-- client.
pub record IsValid (s : ServerImpl) : Type 0 where
  pub matched : (a : ℕ) → count_tag a s.outstanding ≡ alive (s.heap a)
  pub fitting : AllFit s.heap s.outstanding
  pub listening : count_requests s.outstanding ≡ 1

module _ (s : ServerImpl) (v : IsValid s) (i address : ℕ) (op : Operation) (name : Text)
    (there : get_elem? s.outstanding i ≡ some op) (free : s.heap address ≡ none) where
  rest_counts :
      (b : ℕ)
      → alive (s.heap b) ≡ (if tag op == b then 1 else 0) + count_tag b (remove_at i s.outstanding)
  rest_counts b = ground (arith, v.matched b, count_tag-remove_at b i s.outstanding op there)

  fits : Fits (s.heap (tag op)) op
  fits = AllFit-get s.heap i s.outstanding op v.fitting there

  rest_fits : AllFit s.heap (remove_at i s.outstanding)
  rest_fits = AllFit-remove_at s.heap i s.outstanding v.fitting

-- A reply that was sent: its object goes.
after_finish :
    (s : ServerImpl) (i address a : ℕ) (m name : Text)
    → IsValid s
    → get_elem? s.outstanding i ≡ some (finish_rpc a m)
    → s.heap address ≡ none
    → (t : ServerImpl) × (handle_event address a true (complete i (finish_rpc a m) name s) ≡ some t)
      × IsValid t
unfolding handle_event
after_finish s i address a m name v there free = (
  put a none (complete i op name s),
  ground (arith, fits s v i address op name there free),
  record {
    matched = λ b. ground (arith, rest_counts s v i address op name there free b);
    fitting =
        AllFit-update s.heap a none (remove_at i s.outstanding)
          (ground (
            arith,
            rest_counts s v i address op name there free a,
            fits s v i address op name there free,
          ))
          (rest_fits s v i address op name there free);
    listening = ground (arith, v.listening, count_requests-remove_at i s.outstanding op there);
  },
)
  where
    op : Operation
    op = finish_rpc a m

-- A client that arrived: a new object waits for the next one, and this one's reply is on its way.
after_request :
    (s : ServerImpl) (i address a : ℕ) (c : CallData) (name : Text)
    → IsValid s
    → get_elem? s.outstanding i ≡ some (request_say_hello a)
    → s.heap address ≡ none
    → s.heap a ≡ some c
    → c.status ≡ process
    → (t : ServerImpl) × (handle_event address a true (complete i (request_say_hello a) name s)
        ≡ some t)
      × IsValid t
unfolding handle_event proceed_process
after_request s i address a c name v there free held ready = (
  proceed_process address a (record c { request = name }) (complete i op name s),
  ground (arith, held, ready),
  record {
    matched = λ b. ground (arith, counts b, held, free);
    fitting = (ground arith, (ground (arith, held, free), old_fit));
    listening = ground (arith, v.listening, count_requests-remove_at i s.outstanding op there);
  },
)
  where
    op : Operation
    op = request_say_hello a

    counts :
        (b : ℕ)
        → alive (s.heap b) ≡ (if a == b then 1 else 0) + count_tag b (remove_at i s.outstanding)
    counts b = rest_counts s v i address op name there free b

    none_a : count_tag a (remove_at i s.outstanding) ≡ 0
    none_a = ground (arith, counts a, held)

    none_new : count_tag address (remove_at i s.outstanding) ≡ 0
    none_new = ground (arith, counts address, free)

    h₁ : ℕ → Option CallData
    h₁ = update s.heap a (write_request name (s.heap a))

    h₂ : ℕ → Option CallData
    h₂ = update h₁ address (some (record { status = create; request = []; reply = [] }))

    h₃ : ℕ → Option CallData
    h₃ = update h₂ address (some (record { status = process; request = []; reply = [] }))

    answer : Option CallData
    answer = some (record { status = finish; request = name; reply = prefix ++ name })

    old_fit : AllFit (update h₃ a answer) (remove_at i s.outstanding)
    old_fit = AllFit-update h₃ a answer _ none_a (
        AllFit-update h₂ address _ _ none_new (
          AllFit-update h₁ address _ _ none_new
            (AllFit-update s.heap a _ _ none_a (rest_fits s v i address op name there free))))

-- Whatever operation the runtime completes next with `ok`, whatever name a client sends and whatever
-- free address the allocator gives, the event is handled with no call through a dangling pointer, and
-- leaves a valid state.
pub good_event :
    (s : ServerImpl) (i address : ℕ) (op : Operation) (name : Text)
    → IsValid s
    → get_elem? s.outstanding i ≡ some op
    → s.heap address ≡ none
    → (t : ServerImpl) × (handle_event address (tag op) true (complete i op name s) ≡ some t)
      × IsValid t
good_event s i address (finish_rpc a m) name v there free =
    after_finish s i address a m name v there free
good_event s i address (request_say_hello a) name v there free = elim (Option-cases (s.heap a)) [
  | inl gone ↦ absurd (ground (arith, fit, gone))
  | inr (c, held) ↦ after_request s i address a c name v there free held (ground (arith, fit, held))
]
  where
    fit : Fits (s.heap a) (request_say_hello a)
    fit = fits s v i address (request_say_hello a) name there free

-- Whatever operation the runtime completes next, whatever name a client sends and whatever free
-- address the allocator gives: there is a valid state that the event leads to when it comes with `ok`;
-- and without, as the `Finish` of a call that is dead does, the assertion stops the server.
pub handle_event_returns :
    (s : ServerImpl) (i address : ℕ) (op : Operation) (name : Text) (ok : Bool)
    → IsValid s
    → get_elem? s.outstanding i ≡ some op
    → s.heap address ≡ none
    → (t : ServerImpl) × (handle_event address (tag op) ok (complete i op name s)
        ≡ (if ok then some t else none))
      × IsValid t
unfolding handle_event
handle_event_returns s i address op name true v there free =
    good_event s i address op name v there free
handle_event_returns s i address op name false v there free =
    let (t, done, kept) = good_event s i address op name v there free in (t, refl, kept)

pub initial-IsValid : (address : ℕ) → IsValid (initial address)
unfolding initial
initial-IsValid address = record {
  matched = λ b. ground arith;
  fitting = ground arith;
  listening = omega arith;
}

Step-IsValid : {s t : ServerImpl} → Step s t → IsValid s → IsValid t
Step-IsValid {s} {t} (event i op name address there free e) v =
    let (u, f, w) = good_event s i address op name v there free in
    let same : u ≡ t = cc in rw (← same) w

-- Every state that the server reaches from its start, by any sequence of events, is valid: no
-- object is leaked or freed early, and exactly one waits for a client.
pub Reach-IsValid : (address : ℕ) {t : ServerImpl} → Reach (initial address) t → IsValid t
Reach-IsValid address here = initial-IsValid address
Reach-IsValid address (next r st) = Step-IsValid st (Reach-IsValid address r)
