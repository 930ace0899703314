-- ===== src/Proto/Parsing.antt =====
-- src/helloworld.pb.cc: `_InternalParse` ends on every input.
use example.Base.{
  ℕ, zero, suc, ◌≤◌, ◌<◌, ◌≡◌, ◌≢◌, Option-cases, Bool-cases, inl, inr, some, [], ◌∷◌, length, ◌||◌,
  ◌==◌, ◌%◌, Text, arith,
}
use example.Proto.{Protobuf, Message, out_of_fuel, checked_string, is_field_tag, internal_parse}

-- What the parser relies on of the runtime: a tag takes at least one byte, and no parser gives back
-- more bytes than it got.
pub record Consumes {U : Type 0} (protobuf : Protobuf U) : Type 0 where
  pub tag_shortens :
      (bytes : Text) (r : ℕ × Text) → protobuf.read_tag bytes ≡ some r → length r.1 < length bytes
  pub string_fits :
      (bytes : Text) (r : Text × Text)
      → protobuf.inline_greedy_string_parser bytes ≡ some r
      → length r.1 ≤ length bytes
  pub unknown_fits :
      (tag : ℕ) (u : U) (bytes : Text) (r : U × Text)
      → protobuf.unknown_field_parse tag u bytes ≡ some r
      → length r.1 ≤ length bytes

module _ {U : Type 0} (protobuf : Protobuf U) (consumes : Consumes protobuf) where
  checked_fits :
      (bytes : Text) (r : Text × Text)
      → checked_string protobuf bytes ≡ some r
      → length r.1 ≤ length bytes
  checked_fits bytes r h = elim (Option-cases (protobuf.inline_greedy_string_parser bytes)) [
    | inl null ↦ ground (arith, null, h)
    | inr (q, e) ↦ ground (arith, e, h, consumes.string_fits bytes q e)
  ]

  -- With a unit of fuel for each byte, the loop of the parser ends on every input, with a message or
  -- with a null pointer.
  pub parse_ends :
      (fuel : ℕ) (this : Message U) (bytes : Text)
      → length bytes ≤ fuel
      → internal_parse protobuf fuel this bytes ≢ out_of_fuel
  unfolding internal_parse
  parse_ends fuel this [] h = λ e. absurd (cc)
  parse_ends zero this (b ∷ bytes) h = elim h [ ]
  parse_ends (suc fuel) this (b ∷ bytes) h = elim (Option-cases (protobuf.read_tag (b ∷ bytes))) [
    | inl null ↦ rw (internal_parse, null) (λ e. absurd (cc))
    | inr (tagged, read) ↦
        let shorter = consumes.tag_shortens (b ∷ bytes) tagged read in
        rw (internal_parse, read)
          (elim (Bool-cases (is_field_tag protobuf tagged.0)) [
            | inl named ↦ rw named (elim (Option-cases (checked_string protobuf tagged.1)) [
              | inl bad ↦ rw bad (λ e. absurd (cc))
              | inr (r, good) ↦
                  let fits = checked_fits tagged.1 r good in
                  rw good (parse_ends fuel (record this { text = r.0 }) r.1 (omega arith))
            ])
            | inr other ↦ rw other (elim (Bool-cases (tagged.0 == 0 || (tagged.0 % 8) == 4)) [
              | inl last ↦ rw last (λ e. absurd (cc))
              | inr more ↦
                  rw more
                    (elim (Option-cases
                      (protobuf.unknown_field_parse tagged.0 this.unknown_fields tagged.1)) [
                        | inl bad ↦ rw bad (λ e. absurd (cc))
                        | inr (u, good) ↦
                            let fits =
                              consumes.unknown_fits tagged.0 this.unknown_fields tagged.1 u good in
                            rw good (
                              parse_ends fuel (record this { unknown_fields = u.0 }) u.1
                                (omega arith))
                      ])
            ])
          ])
  ]
