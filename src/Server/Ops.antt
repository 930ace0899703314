-- ===== src/Server/Ops.antt =====
-- The list of outstanding operations: counting by tag, and what a change of the heap leaves alone.
use example.Base.{
  ℕ, zero, suc, ◌+◌, ◌≡◌, Option, none, some, List, [], ◌∷◌, arith, ◌==◌, if◌then◌else◌, get_elem?,
  All,
}
use example.Server.{
  process, finish, CallData, Operation, request_say_hello, finish_rpc, update, tag, remove_at,
}

-- How many operations carry a tag.
abbrev pub count_tag : ℕ → List Operation → ℕ
count_tag a [] = 0
count_tag a (op ∷ ops) = if tag op == a then suc (count_tag a ops) else count_tag a ops

abbrev pub is_request : Operation → ℕ
is_request (request_say_hello a) = 1
is_request (finish_rpc a m) = 0

-- How many operations wait for a client.
abbrev pub count_requests : List Operation → ℕ
count_requests [] = 0
count_requests (op ∷ ops) = is_request op + count_requests ops

-- An operation fits the object under its tag: a request an object in PROCESS, a reply an object in
-- FINISH that holds this reply.
abbrev pub Fits : Option CallData → Operation → Type 0
Fits none op = ⊥
Fits (some c) (request_say_hello a) = c.status ≡ process
Fits (some c) (finish_rpc a m) = (c.status ≡ finish) × (c.reply ≡ m)

abbrev pub AllFit : (ℕ → Option CallData) → List Operation → Type 0
AllFit h = All (λ op. Fits (h (tag op)) op)

pub count_tag-remove_at :
    (a i : ℕ) (ops : List Operation) (op : Operation)
    → get_elem? ops i ≡ some op
    → count_tag a ops ≡ (if tag op == a then 1 else 0) + count_tag a (remove_at i ops)
count_tag-remove_at a i [] op e = absurd (cc)
count_tag-remove_at a zero (x ∷ ops) op e = ground arith
count_tag-remove_at a (suc i) (x ∷ ops) op e = ground (arith, count_tag-remove_at a i ops op e)

pub count_requests-remove_at :
    (i : ℕ) (ops : List Operation) (op : Operation)
    → get_elem? ops i ≡ some op
    → count_requests ops ≡ is_request op + count_requests (remove_at i ops)
count_requests-remove_at i [] op e = absurd (cc)
count_requests-remove_at zero (x ∷ ops) op e = ground arith
count_requests-remove_at (suc i) (x ∷ ops) op e =
    ground (arith, count_requests-remove_at i ops op e)

pub AllFit-remove_at :
    (h : ℕ → Option CallData) (i : ℕ) (ops : List Operation)
    → AllFit h ops
    → AllFit h (remove_at i ops)
AllFit-remove_at h i [] v = tt
AllFit-remove_at h zero (x ∷ ops) v = v.1
AllFit-remove_at h (suc i) (x ∷ ops) v = (v.0, AllFit-remove_at h i ops v.1)

pub AllFit-get :
    (h : ℕ → Option CallData) (i : ℕ) (ops : List Operation) (op : Operation)
    → AllFit h ops
    → get_elem? ops i ≡ some op
    → Fits (h (tag op)) op
AllFit-get h i [] op v e = absurd (cc)
AllFit-get h zero (x ∷ ops) op v e = ground (arith, v.0)
AllFit-get h (suc i) (x ∷ ops) op v e = AllFit-get h i ops op v.1 e

-- A write under a tag that no operation carries.
pub AllFit-update :
    (h : ℕ → Option CallData) (a : ℕ) (c : Option CallData) (ops : List Operation)
    → count_tag a ops ≡ 0
    → AllFit h ops
    → AllFit (update h a c) ops
AllFit-update h a c [] z v = tt
AllFit-update h a c (x ∷ ops) z v =
    (ground (arith, v.0), AllFit-update h a c ops (ground arith) v.1)
