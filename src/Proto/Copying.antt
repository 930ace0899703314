-- ===== src/Proto/Copying.antt =====
-- src/helloworld.pb.cc: copies, moves and swaps of messages in a store.
use example.Base.{
  some, ℕ, ◌≡◌, ◌≢◌, refl, ap, sym, true, false, not, Option, [], ◌∷◌, ◌==◌, ==_iff, Bool-cases,
  inl, inr, if◌then◌else◌, Text, arith,
}
use example.Proto.{
  Protobuf, Message, clear, merge_from, copy_ctor, copy_from, internal_swap, move_assign, swap,
  unsafe_arena_swap, empty, same_arena,
}

-- Merging into no unknown fields gives the other fields.
abbrev pub MergesInto : {U : Type 0} → Protobuf U → Type 0
MergesInto {U} protobuf = (u : U) → protobuf.merge_unknown_fields protobuf.no_unknown_fields u ≡ u

-- What a swap puts at an address: what was at the other.
abbrev pub exchanged : ℕ → ℕ → ℕ → ℕ
exchanged this other a = if a == this then other else if a == other then this else a

-- What the runtime documents of `GenericSwap`.
abbrev pub Exchanges : {U : Type 0} → (ℕ → ℕ → (ℕ → Message U) → ℕ → Message U) → Type 0
Exchanges {U} generic_swap =
    (this other : ℕ) (store : ℕ → Message U) (a : ℕ)
    → generic_swap this other store a ≡ store (exchanged this other a)

self : (a : ℕ) → (a == a) ≡ true
self a = (==_iff a a).1 refl

differs : {a b : ℕ} → a ≢ b → (a == b) ≡ false
differs h = ground (arith, h)

module _ {U : Type 0} (protobuf : Protobuf U) (merges : MergesInto protobuf) where
  name_or_empty : (s : Text) → (if not (empty s) then s else []) ≡ s
  name_or_empty [] = refl
  name_or_empty (c ∷ cs) = refl

  merge_clear : (this from : Message U) → merge_from protobuf (clear protobuf this) from ≡ from
  unfolding merge_from clear
  merge_clear this from =
      rw (merge_from, clear, name_or_empty from.text, merges from.unknown_fields) refl

  copy_target :
      (this from : ℕ) (store : ℕ → Message U) → copy_from protobuf this from store this ≡ store from
  unfolding copy_from
  copy_target this from store = elim (Bool-cases (from == this)) [
    | inl same ↦ rw (copy_from, same) (ap store (sym ((==_iff from this).0 same)))
    | inr different ↦ rw (copy_from, different, self this) (merge_clear (store this) (store from))
  ]

  copy_other :
      (this from other : ℕ) (store : ℕ → Message U)
      → other ≢ this
      → copy_from protobuf this from store other ≡ store other
  unfolding copy_from
  copy_other this from other store apart = elim (Bool-cases (from == this)) [
    | inl same ↦ rw (copy_from, same) refl
    | inr different ↦ rw (copy_from, different, differs apart) refl
  ]

  -- Whatever the arenas, the move assignment gives the target the value that the source had.
  move_assign_lem :
      (arena : ℕ → Option ℕ) (this from : ℕ) (store : ℕ → Message U)
      → move_assign protobuf arena this from store this ≡ store from
  unfolding move_assign internal_swap
  move_assign_lem arena this from store = elim (Bool-cases (this == from)) [
    | inl same ↦ rw (move_assign, same) (ap store ((==_iff this from).0 same))
    | inr different ↦ elim (Bool-cases (same_arena protobuf (arena this) (arena from))) [
      | inl shared ↦ rw (move_assign, different, shared, internal_swap, different, self this) refl
      | inr separate ↦ rw (move_assign, different, separate) (copy_target this from store)
    ]
  ]

  swap_lem :
      (generic_swap : ℕ → ℕ → (ℕ → Message U) → ℕ → Message U) (arena : ℕ → Option ℕ)
      (this other a : ℕ) (store : ℕ → Message U)
      → Exchanges generic_swap
      → swap protobuf generic_swap arena this other store a ≡ store (exchanged this other a)
  unfolding swap internal_swap
  swap_lem generic_swap arena this other a store exchanges = elim (Bool-cases (other == this)) [
    | inl same ↦ rw (swap, same) (ap store (ground (arith, same)))
    | inr different ↦ elim (Bool-cases (same_arena protobuf (arena this) (arena other))) [
      | inl shared ↦ rw (swap, different, shared) (ground (arith, different))
      | inr separate ↦ rw (swap, different, separate) (exchanges this other store a)
    ]
  ]

  -- Where its check holds, `UnsafeArenaSwap` is `Swap`.
  pub unsafe_arena_swap_lem :
      (generic_swap : ℕ → ℕ → (ℕ → Message U) → ℕ → Message U) (arena : ℕ → Option ℕ)
      (this other : ℕ) (store swapped : ℕ → Message U)
      → unsafe_arena_swap protobuf arena this other store ≡ some swapped
      → swap protobuf generic_swap arena this other store ≡ swapped
  unfolding swap unsafe_arena_swap
  unsafe_arena_swap_lem generic_swap arena this other store swapped h =
      elim (Bool-cases (other == this)) [
        | inl same ↦ ground (arith, same, h)
        | inr different ↦ elim (Bool-cases (same_arena protobuf (arena this) (arena other))) [
          | inl shared ↦ ground (arith, different, shared, h)
          | inr separate ↦ ground (arith, different, separate, h)
        ]
      ]

  -- A copy, by `CopyFrom` or by the copy constructor, equals the original, also when a message is
  -- copied onto itself, and `CopyFrom` changes no other message. A message that another is moved to
  -- equals it, and `Swap` exchanges two messages and changes no other: whichever arenas own them.
  pub copies_lem :
      (generic_swap : ℕ → ℕ → (ℕ → Message U) → ℕ → Message U) (arena : ℕ → Option ℕ)
      (this from other : ℕ) (store : ℕ → Message U)
      → Exchanges generic_swap
      → other ≢ this
      → (copy_from protobuf this from store this ≡ store from)
        × (copy_from protobuf this from store other ≡ store other)
        × (copy_ctor protobuf (store from) ≡ store from)
        × (move_assign protobuf arena this from store this ≡ store from)
        × ((a : ℕ)
            → swap protobuf generic_swap arena this from store a ≡ store (exchanged this from a))
  unfolding copy_ctor
  copies_lem generic_swap arena this from other store exchanges apart = (
    copy_target this from store,
    copy_other this from other store apart,
    rw (copy_ctor, name_or_empty (store from).text, merges (store from).unknown_fields) refl,
    move_assign_lem arena this from store,
    λ a. swap_lem generic_swap arena this from a store exchanges,
  )
