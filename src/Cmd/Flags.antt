-- ===== src/Cmd/Flags.antt =====
-- cmd/notifier/main.go: the publisher type that the flags choose.
use mx_chain_notifier_go.Base.{
  ◌≡◌, ◌⊎◌, inl, inr, true, false, GoString, codes, str_eq, Bool-cases, arith, str_eq_iff,
}
use mx_chain_notifier_go.Errors.{Result, ok, bind_ok}
use mx_chain_notifier_go.Config.{FlagsConfig}
use mx_chain_notifier_go.Cmd.{
  CliContext, api_type_flag, api_type_default, publisher_type_flag, publisher_type_default,
  handle_api_type, get_working_dir, get_flags_config,
}

-- What the cli package documents of a flag: without it, its value is the default.
abbrev pub HasDefault : CliContext → GoString → GoString → Type 0
HasDefault ctx name default = ctx.is_set name ≡ false → ctx.global_string name ≡ default

handle_api_type-cases :
    (ctx : CliContext) {t : GoString}
    → handle_api_type ctx ≡ ok t
    → ((ctx.global_string api_type_flag ≡ codes "rabbit-api") × (t ≡ codes "rabbitmq"))
      ⊎ ((ctx.global_string api_type_flag ≡ codes "notifier") × (t ≡ codes "ws"))
unfolding handle_api_type
handle_api_type-cases ctx {t} h =
    elim (Bool-cases (str_eq (ctx.global_string api_type_flag) (codes "rabbit-api"))) [
      | inl rabbit ↦ inl (
        (str_eq_iff (ctx.global_string api_type_flag) (codes "rabbit-api")).0 rabbit,
        ground (arith, rabbit, h),
      )
      | inr other ↦
          elim (Bool-cases (str_eq (ctx.global_string api_type_flag) (codes "notifier"))) [
            | inl notifier ↦ inr (
              (str_eq_iff (ctx.global_string api_type_flag) (codes "notifier")).0 notifier,
              ground (arith, other, notifier, h),
            )
            | inr unknown ↦ absurd (ground (arith, other, unknown, h))
          ]
    ]

-- The publisher type that the flags lead to: the one given, whatever it is; or, if none is given,
-- "rabbitmq" or "ws" as the deprecated flag of the API type says, which must be one of its two values
-- in any case. Without either flag it is "ws", although the default of the flag is "rabbitmq".
pub get_flags_config-publisher_type :
    (ctx : CliContext) (getwd : Result GoString) (c : FlagsConfig)
    → HasDefault ctx api_type_flag api_type_default
    → HasDefault ctx publisher_type_flag publisher_type_default
    → get_flags_config ctx getwd ≡ ok c
    → (ctx.is_set publisher_type_flag ≡ true
        → c.publisher_type ≡ ctx.global_string publisher_type_flag)
      × (ctx.is_set publisher_type_flag ≡ false
          → ((ctx.global_string api_type_flag ≡ codes "rabbit-api")
              × (c.publisher_type ≡ codes "rabbitmq"))
            ⊎ ((ctx.global_string api_type_flag ≡ codes "notifier")
                × (c.publisher_type ≡ codes "ws")))
      × (ctx.is_set publisher_type_flag ≡ false
          → ctx.is_set api_type_flag ≡ false
          → (c.publisher_type ≡ codes "ws")
            × (ctx.global_string publisher_type_flag ≡ codes "rabbitmq"))
unfolding get_flags_config
get_flags_config-publisher_type ctx getwd c api publisher h =
    let (dir, found_dir, h1) = bind_ok (get_working_dir ctx getwd) _ h in
    let (t, found, h2) = bind_ok (handle_api_type ctx) _ h1 in
    let by_api = handle_api_type-cases ctx found in
    (
      λ given. ground (arith, given, h2),
      λ absent. ground (arith, absent, h2, by_api),
      λ absent no_api. (ground (arith, absent, h2, by_api, api no_api), publisher absent),
    )
