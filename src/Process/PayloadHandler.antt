-- ===== src/Process/PayloadHandler.antt =====
-- process/payloadHandler.go: a payload goes by its topic to an action, and by its version to a
-- preprocessor.
pub mod Dispatch
use mx_chain_notifier_go.Base.{
  ℕ, List, [], ◌∷◌, Option, none, some, GoString, Bytes, lookup, insert, nat_eq, string_eq,
}
use mx_chain_notifier_go.Errors.{
  Result, ok, err, panicked, nil_data_processor, invalid_payload_type,
}
use mx_chain_notifier_go.Process.Preprocess.{DataProcessor}

-- The topics, which are constants of mx-chain-core-go's package outport.
pub record Topics : Type 0 where
  pub save_block : GoString
  pub revert_indexed_block : GoString
  pub save_rounds_info : GoString
  pub save_validators_rating : GoString
  pub save_validators_pub_keys : GoString
  pub save_accounts : GoString
  pub finalized_block : GoString

-- The methods that the map of actions holds.
pub data Action : Type 0 where
  saves_block reverts_indexed_block saves_rounds saves_validators_rating : Action
  saves_validators_pub_keys saves_accounts finalizes_block : Action

-- `initActionsMap`
unfoldable pub actions : Topics → List (GoString × Action)
actions t =
    (t.save_block, Action.saves_block)
    ∷ (t.revert_indexed_block, Action.reverts_indexed_block)
    ∷ (t.save_rounds_info, Action.saves_rounds)
    ∷ (t.save_validators_rating, Action.saves_validators_rating)
    ∷ (t.save_validators_pub_keys, Action.saves_validators_pub_keys)
    ∷ (t.save_accounts, Action.saves_accounts)
    ∷ (t.finalized_block, Action.finalizes_block)
    ∷ []

abbrev pub DataProcessors : Type 0 → Type 0
DataProcessors W = List (ℕ × DataProcessor W)

-- `NewPayloadHandler`, whose one field that varies is the map of processors.
unfoldable pub new_payload_handler : {W : Type 0} → DataProcessors W → Result (DataProcessors W)
new_payload_handler [] = err nil_data_processor
new_payload_handler (p ∷ ps) = ok (p ∷ ps)

module _ {W : Type 0} (data_processors : DataProcessors W) where
  -- `dataProcessor, ok := ph.dataProcessors[version]`, and the method that is called on it.
  unfoldable pub with_processor :
      ℕ
      → (DataProcessor W → W → Option (Result (Unit {0}) × W))
      → W
      → Option (Result (Unit {0}) × W)
  with_processor version call w = elim (lookup version data_processors) [
    | none ↦ some (err invalid_payload_type, w)
    | some p ↦ call p w
  ]

  unfoldable pub run_action : Action → Bytes → ℕ → W → Option (Result (Unit {0}) × W)
  unfolding with_processor
  run_action Action.saves_block bytes version = with_processor version (λ p. p.save_block bytes)
  run_action Action.reverts_indexed_block bytes version =
      with_processor version (λ p. p.revert_indexed_block bytes)
  run_action Action.finalizes_block bytes version =
      with_processor version (λ p. p.finalized_block bytes)
  run_action Action.saves_rounds bytes version = λ w. some (ok tt, w)
  run_action Action.saves_validators_rating bytes version = λ w. some (ok tt, w)
  run_action Action.saves_validators_pub_keys bytes version = λ w. some (ok tt, w)
  run_action Action.saves_accounts bytes version = λ w. some (ok tt, w)

  unfoldable pub process_payload :
      Topics → Bytes → GoString → ℕ → W → Option (Result (Unit {0}) × W)
  unfolding run_action actions
  process_payload topics payload topic version w = elim (lookup topic (actions topics)) [
    | none ↦ some (ok tt, w)
    | some action ↦ run_action action payload version w
  ]
