-- ===== src/Proto/Accessors.antt =====
-- include/helloworld.pb.h: the accessors of the field that hand its string over.
use example.Base.{ℕ, ◌≡◌, ap, ◌∙◌, Option, none, some, [], Text}
use example.Proto.{Message}

-- What the generated code calls of the runtime's `ArenaStringPtr`, for the arena of the message: what
-- `Release` returns, a pointer to a string that the caller owns from then on, and leaves in the field;
-- and what `SetAllocated` makes of the field, given such a pointer. `none` is a null pointer.
pub record ArenaStringPtr : Type 0 where
  pub release : Option ℕ → Text → Option Text × Text
  pub set_allocated : Option ℕ → Option Text → Text → Text

-- The string behind a pointer; the accessors read a null pointer as the empty string.
abbrev pub pointed_to : Option Text → Text
pointed_to none = []
pointed_to (some s) = s

-- What the runtime documents of them: the released string has the field's value, the field is then
-- empty, and a string that is set is the field's value.
pub record Documented (p : ArenaStringPtr) : Type 0 where
  pub releases : (arena : Option ℕ) (t : Text) → pointed_to (p.release arena t).0 ≡ t
  pub empties : (arena : Option ℕ) (t : Text) → (p.release arena t).1 ≡ []
  pub allocates :
      (arena : Option ℕ) (s : Option Text) (t : Text) → p.set_allocated arena s t ≡ pointed_to s

module _ {U : Type 0} where
  abbrev with_text : Message U → Text → Message U
  with_text this t = record this { text = t }

  -- `clear_name`.
  unfoldable pub clear_text : Message U → Message U
  clear_text this = record this { text = [] }

  -- What the caller of `mutable_name` does to the string behind the pointer.
  unfoldable pub mutable_text : (Text → Text) → Message U → Message U
  mutable_text f this = record this { text = f this.text }

  module _ (ptr : ArenaStringPtr) where
    -- `release_name`.
    unfoldable pub release_text : Option ℕ → Message U → Option Text × Message U
    release_text arena this =
        let (s, t) = ptr.release arena this.text in (s, record this { text = t })

    -- `set_allocated_name`.
    unfoldable pub set_allocated_text : Option ℕ → Option Text → Message U → Message U
    set_allocated_text arena s this = record this { text = ptr.set_allocated arena s this.text }

    module _ (documented : Documented ptr) where
      -- Where the runtime's `ArenaStringPtr` does what it documents, whatever arenas own the messages: a
      -- message that is given the string which another released has its text, and the field of the
      -- other is cleared; both keep their unknown fields. A message that is given its own string back
      -- is as before, and the field of one that is given no string is cleared.
      pub hands_over :
          (arena other_arena : Option ℕ) (this from : Message U)
          → let (s, emptied) = release_text other_arena from in
            (set_allocated_text arena s this
              ≡ record { text = from.text; unknown_fields = this.unknown_fields })
            × (emptied ≡ clear_text from)
            × (set_allocated_text other_arena s emptied ≡ from)
            × (set_allocated_text arena none this ≡ clear_text this)
      unfolding release_text set_allocated_text clear_text
      hands_over arena other_arena this from =
          let s = (ptr.release other_arena from.text).0 in
          let emptied = (ptr.release other_arena from.text).1 in
          let released = documented.releases other_arena from.text in
          (
            ap (with_text this) (documented.allocates arena s this.text ∙ released),
            ap (with_text from) (documented.empties other_arena from.text),
            ap (with_text from) (documented.allocates other_arena s emptied ∙ released),
            ap (with_text this) (documented.allocates arena none this.text),
          )
