-- ===== src/Process/PayloadHandler/Dispatch.antt =====
-- process/payloadHandler.go: every topic and every version.
use mx_chain_notifier_go.Base.{
  ℕ, [], ◌∷◌, Option, none, some, Bytes, lookup, nat_eq, string_eq, Unique, lookup-middle, ◌≡◌,
  arith,
}
use mx_chain_notifier_go.Errors.{Result, ok, err, invalid_payload_type}
use mx_chain_notifier_go.Process.Preprocess.{DataProcessor}
use mx_chain_notifier_go.Process.PayloadHandler.{
  Topics, Action, actions, DataProcessors, process_payload,
}

-- What a call on the preprocessor of a version gives, or the error for a version without one.
abbrev pub on_version :
    {W : Type 0}
    → Option (DataProcessor W)
    → (DataProcessor W → Option (Result (Unit {0}) × W))
    → W
    → Option (Result (Unit {0}) × W)
on_version none call w = some (err invalid_payload_type, w)
on_version (some p) call w = call p

module _ {W : Type 0} (ps : DataProcessors W) (t : Topics) (distinct : Unique (actions t)) where
  lookup-save_block : lookup t.save_block (actions t) ≡ some Action.saves_block
  unfolding actions
  lookup-save_block =
      lookup-middle t.save_block Action.saves_block ([])
        ((t.revert_indexed_block, Action.reverts_indexed_block)
          ∷ (t.save_rounds_info, Action.saves_rounds)
          ∷ (t.save_validators_rating, Action.saves_validators_rating)
          ∷ (t.save_validators_pub_keys, Action.saves_validators_pub_keys)
          ∷ (t.save_accounts, Action.saves_accounts)
          ∷ (t.finalized_block, Action.finalizes_block)
          ∷ [])
        distinct

  lookup-revert_indexed_block :
      lookup t.revert_indexed_block (actions t) ≡ some Action.reverts_indexed_block
  unfolding actions
  lookup-revert_indexed_block =
      lookup-middle t.revert_indexed_block Action.reverts_indexed_block
        ((t.save_block, Action.saves_block) ∷ [])
        ((t.save_rounds_info, Action.saves_rounds)
          ∷ (t.save_validators_rating, Action.saves_validators_rating)
          ∷ (t.save_validators_pub_keys, Action.saves_validators_pub_keys)
          ∷ (t.save_accounts, Action.saves_accounts)
          ∷ (t.finalized_block, Action.finalizes_block)
          ∷ [])
        distinct

  lookup-save_rounds_info : lookup t.save_rounds_info (actions t) ≡ some Action.saves_rounds
  unfolding actions
  lookup-save_rounds_info =
      lookup-middle t.save_rounds_info Action.saves_rounds
        ((t.save_block, Action.saves_block)
          ∷ (t.revert_indexed_block, Action.reverts_indexed_block)
          ∷ [])
        ((t.save_validators_rating, Action.saves_validators_rating)
          ∷ (t.save_validators_pub_keys, Action.saves_validators_pub_keys)
          ∷ (t.save_accounts, Action.saves_accounts)
          ∷ (t.finalized_block, Action.finalizes_block)
          ∷ [])
        distinct

  lookup-save_validators_rating :
      lookup t.save_validators_rating (actions t) ≡ some Action.saves_validators_rating
  unfolding actions
  lookup-save_validators_rating =
      lookup-middle t.save_validators_rating Action.saves_validators_rating
        ((t.save_block, Action.saves_block)
          ∷ (t.revert_indexed_block, Action.reverts_indexed_block)
          ∷ (t.save_rounds_info, Action.saves_rounds)
          ∷ [])
        ((t.save_validators_pub_keys, Action.saves_validators_pub_keys)
          ∷ (t.save_accounts, Action.saves_accounts)
          ∷ (t.finalized_block, Action.finalizes_block)
          ∷ [])
        distinct

  lookup-save_validators_pub_keys :
      lookup t.save_validators_pub_keys (actions t) ≡ some Action.saves_validators_pub_keys
  unfolding actions
  lookup-save_validators_pub_keys =
      lookup-middle t.save_validators_pub_keys Action.saves_validators_pub_keys
        ((t.save_block, Action.saves_block)
          ∷ (t.revert_indexed_block, Action.reverts_indexed_block)
          ∷ (t.save_rounds_info, Action.saves_rounds)
          ∷ (t.save_validators_rating, Action.saves_validators_rating)
          ∷ [])
        ((t.save_accounts, Action.saves_accounts)
          ∷ (t.finalized_block, Action.finalizes_block)
          ∷ [])
        distinct

  lookup-save_accounts : lookup t.save_accounts (actions t) ≡ some Action.saves_accounts
  unfolding actions
  lookup-save_accounts =
      lookup-middle t.save_accounts Action.saves_accounts
        ((t.save_block, Action.saves_block)
          ∷ (t.revert_indexed_block, Action.reverts_indexed_block)
          ∷ (t.save_rounds_info, Action.saves_rounds)
          ∷ (t.save_validators_rating, Action.saves_validators_rating)
          ∷ (t.save_validators_pub_keys, Action.saves_validators_pub_keys)
          ∷ [])
        ((t.finalized_block, Action.finalizes_block) ∷ []) distinct

  lookup-finalized_block : lookup t.finalized_block (actions t) ≡ some Action.finalizes_block
  unfolding actions
  lookup-finalized_block =
      lookup-middle t.finalized_block Action.finalizes_block
        ((t.save_block, Action.saves_block)
          ∷ (t.revert_indexed_block, Action.reverts_indexed_block)
          ∷ (t.save_rounds_info, Action.saves_rounds)
          ∷ (t.save_validators_rating, Action.saves_validators_rating)
          ∷ (t.save_validators_pub_keys, Action.saves_validators_pub_keys)
          ∷ (t.save_accounts, Action.saves_accounts)
          ∷ [])
        ([]) distinct

  -- With distinct topics, the topics of blocks, reverts and finalizations reach the method of that
  -- name of the version's preprocessor, with an error and no other effect for a version that has no
  -- preprocessor; the four other topics of the observer succeed without effect, for every version.
  pub process_payload_lem :
      (payload : Bytes) (version : ℕ) (w : W)
      → let p = lookup version ps in
        (process_payload ps t payload t.save_block version w
          ≡ on_version p (λ d. d.save_block payload w) w)
        × (process_payload ps t payload t.revert_indexed_block version w
            ≡ on_version p (λ d. d.revert_indexed_block payload w) w)
        × (process_payload ps t payload t.finalized_block version w
            ≡ on_version p (λ d. d.finalized_block payload w) w)
        × (process_payload ps t payload t.save_rounds_info version w ≡ some (ok tt, w))
        × (process_payload ps t payload t.save_validators_rating version w ≡ some (ok tt, w))
        × (process_payload ps t payload t.save_validators_pub_keys version w ≡ some (ok tt, w))
        × (process_payload ps t payload t.save_accounts version w ≡ some (ok tt, w))
  unfolding process_payload
  process_payload_lem payload version w = (
    ground (arith, lookup-save_block),
    ground (arith, lookup-revert_indexed_block),
    ground (arith, lookup-finalized_block),
    ground (arith, lookup-save_rounds_info),
    ground (arith, lookup-save_validators_rating),
    ground (arith, lookup-save_validators_pub_keys),
    ground (arith, lookup-save_accounts),
  )
