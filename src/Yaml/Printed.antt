-- ===== src/Yaml/Printed.antt =====
-- src/test_yaml_cpp_struct.cpp: when a configuration is printed, and how main ends.
use example.Base.{
  Option, none, some, [], ◌∷◌, if◌then◌else◌, ◌==◌, Text, codes, ◌≡◌, refl, arith, ◌⊎◌, inl, inr,
  Bool-cases, ◌≢◌, Option-cases, List,
}
use example.Asio.{error, info, Line}
use example.Yaml.{negsuc, pos}
use example.Yaml.Struct.{
  AccountType, Config, ok, bad_cast, exit, terminated, to_string_account_type, to_string_config,
  config_pieces, concat, main, End,
}

-- The enumerators of the enum.
abbrev pub IsEnumerator : AccountType → Type 0
IsEnumerator type = (type.underlying ≡ 1) ⊎ (type.underlying ≡ 2)

abbrev pub enumerator_name : AccountType → Text
enumerator_name type = if type.underlying == 1 then codes "Personal" else codes "Company"

abbrev pub IsOther : AccountType → Type 0
IsOther type = (type.underlying ≢ 1) × (type.underlying ≢ 2)

account_type_cases :
    (type : AccountType)
    → (IsEnumerator type × (to_string_account_type type ≡ ok (enumerator_name type)))
      ⊎ (IsOther type × (to_string_account_type type ≡ bad_cast))
unfolding to_string_account_type
account_type_cases type = elim (Bool-cases (type.underlying == 1)) [
  | inl one ↦ inl (inl (ground (arith, one)), rw one refl)
  | inr not_one ↦ elim (Bool-cases (type.underlying == 2)) [
    | inl two ↦ inl (inr (ground (arith, two)), rw (not_one, two) refl)
    | inr not_two ↦ inr (
      (λ e. ground (arith, not_one, e), λ e. ground (arith, not_two, e)),
      rw (not_one, not_two) refl,
    )
  ]
]

module _ {Double : Type 0} (double_text : Double → Text) where
  abbrev pub config_text : Config Double → Text
  config_text cfg = concat (config_pieces double_text cfg (enumerator_name cfg.account_type))

  config_cases :
      (cfg : Config Double)
      → (IsEnumerator cfg.account_type × (to_string_config double_text cfg ≡ ok (config_text cfg)))
        ⊎ (IsOther cfg.account_type × (to_string_config double_text cfg ≡ bad_cast))
  unfolding to_string_config
  config_cases cfg = elim (account_type_cases cfg.account_type) [
    | inl (named, e) ↦ inl (named, rw (to_string_config, e) refl)
    | inr (unnamed, e) ↦ inr (unnamed, rw (to_string_config, e) refl)
  ]

  module _ (from_yaml : Text → Option (Config Double) × Text)
      (to_yaml : Config Double → Option Text × Text) (argv1 : Text) where
    abbrev Runs : List Line × End → Type 0
    Runs r = main double_text from_yaml to_yaml argv1 ≡ r

    abbrev pub Unreadable : Type 0
    Unreadable =
        ((from_yaml argv1).0 ≡ none)
        × Runs (error (codes "{}") ((from_yaml argv1).1 ∷ []) ∷ [], exit (negsuc 0))

    abbrev pub Untyped : Type 0
    Untyped =
        (cfg : Config Double) × ((from_yaml argv1).0 ≡ some cfg)
        × IsOther cfg.account_type
        × Runs ([], terminated)

    abbrev pub Unwritable : Type 0
    Unwritable =
        (cfg : Config Double) × ((from_yaml argv1).0 ≡ some cfg)
        × IsEnumerator cfg.account_type
        × ((to_yaml cfg).0 ≡ none)
        × Runs (info (codes "\n{}") (config_text cfg ∷ []) ∷ [], terminated)

    abbrev pub Written : Type 0
    Written =
        (cfg : Config Double) × (str : Text) × ((from_yaml argv1).0 ≡ some cfg)
        × IsEnumerator cfg.account_type
        × ((to_yaml cfg).0 ≡ some str)
        × Runs (
          info (codes "\n{}") (config_text cfg ∷ []) ∷ info (codes "\n{}") (str ∷ []) ∷ [],
          exit (pos 0),
        )

    -- The program ends in one of four ways. A file that cannot be read gives its error and the exit
    -- code -1. A configuration whose account type is no enumerator ends the program before anything is
    -- printed. One that has no YAML text ends it after its own text is printed. Any other prints its
    -- text and its YAML text, and the exit code is 0.
    pub main_cases : (Unreadable ⊎ Untyped) ⊎ (Unwritable ⊎ Written)
    unfolding main
    main_cases = elim (Option-cases (from_yaml argv1).0) [
      | inl failed ↦ inl (inl (failed, rw (main, failed) refl))
      | inr (cfg, parsed) ↦ elim (config_cases cfg) [
        | inr (unnamed, e) ↦ inl (inr (cfg, parsed, unnamed, rw (main, parsed, e) refl))
        | inl (named, e) ↦ elim (Option-cases (to_yaml cfg).0) [
          | inl unwritten ↦
              inr (inl (cfg, parsed, named, unwritten, rw (main, parsed, e, unwritten) refl))
          | inr (str, written) ↦
              inr (inr (cfg, str, parsed, named, written, rw (main, parsed, e, written) refl))
        ]
      ]
    ]
