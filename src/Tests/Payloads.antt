-- ===== src/Tests/Payloads.antt =====
-- Payloads of both versions on their way to the interceptor.
use mx_chain_notifier_go.Base.{
  ℕ, ◌+◌, ◌≡◌, refl, [], ◌∷◌, none, some, codes, lookup, Unique, string_eq, nat_eq, str_eq,
}
use mx_chain_notifier_go.Errors.{ok, err, external}
use mx_chain_notifier_go.Data.{block_body, OutportBlockDataOld, ArgsSaveBlockData}
use mx_chain_notifier_go.Process.Preprocess.{
  Marshaller, EventsFacade, OutportBlock, BaseEventsPreProcessor, get_header_from_bytes,
  push_decoded,
}
use mx_chain_notifier_go.Process.Preprocess.VersionZero.{events_pre_processor_v0}
use mx_chain_notifier_go.Process.Preprocess.VersionOne.{
  check_block_data_valid, decode_block_v1, events_pre_processor_v1,
}
use mx_chain_notifier_go.Process.PayloadHandler.{Topics, actions, DataProcessors, process_payload}
use mx_chain_notifier_go.Process.PayloadHandler.Dispatch.{on_version, process_payload_lem}
use mx_chain_notifier_go.Tests.Fixtures.{header, pool, transfer}

-- A block of version 0 with a nil transaction, and one nil log of two.
abbrev old_block : OutportBlockDataOld
old_block = record {
  header_hash = 171 ∷ 7 ∷ [];
  body = none;
  transactions_pool = some (record {
    txs =
        (
          codes "tx1",
          some (record { transaction_handler = some 11; fee_info = 12; execution_order = 0 }),
        )
        ∷ (codes "tx2", none)
        ∷ [];
    scrs = [];
    logs =
        none
        ∷ some (record {
          log_handler = some (record { events = some transfer ∷ [] });
          tx_hash = codes "tx1";
        })
        ∷ [];
  });
  signers_indexes = [];
  notarized_headers_hashes = [];
  header_gas_consumption = 3;
  altered_accounts = [];
  number_of_shards = 3;
}

abbrev new_block : OutportBlock
new_block = record {
  block_data = some (record {
    header_type = codes "HeaderV2";
    header_bytes = 1 ∷ [];
    header_hash = 171 ∷ 7 ∷ [];
    body = none;
  });
  transaction_pool = some pool;
  header_gas_consumption = some 2;
  signers_indexes = [];
  notarized_headers_hashes = [];
  altered_accounts = [];
  number_of_shards = 3;
}

-- It decodes every payload to the same values.
abbrev pub marshaller : Marshaller
marshaller = record {
  unmarshal_block_data_old = λ b. ok old_block;
  unmarshal_header_type = λ b. ok (codes "HeaderV2");
  unmarshal_revert_block = λ b. err (external 3);
  unmarshal_finalized_block = λ b. err (external 3);
  unmarshal_outport_block = λ b. ok new_block;
  unmarshal_block_data = λ b. err (external 3);
  unmarshal_outport_finalized_block = λ b. err (external 3);
  creator = λ t. ok 4;
  header_from_bytes = λ c b. ok header;
}

abbrev old_args : ArgsSaveBlockData
old_args = record {
  header_hash = 171 ∷ 7 ∷ [];
  body = block_body none;
  header = some header;
  signers_indexes = [];
  notarized_headers_hashes = [];
  header_gas_consumption = some 3;
  transactions_pool = some (record {
    transactions =
        (
          codes "tx1",
          some (record { transaction = some 11; fee_info = some 12; execution_order = 0 }),
        )
        ∷ [];
    smart_contract_results = [];
    logs =
        none
        ∷ none
        ∷ some
            (record { tx_hash = codes "tx1"; log = some (record { events = some transfer ∷ [] }) })
        ∷ [];
  });
  altered_accounts = [];
  number_of_shards = 3;
}

abbrev pub new_args : ArgsSaveBlockData
new_args = record {
  header_hash = 171 ∷ 7 ∷ [];
  body = block_body none;
  header = some header;
  signers_indexes = [];
  notarized_headers_hashes = [];
  header_gas_consumption = some 2;
  transactions_pool = some pool;
  altered_accounts = [];
  number_of_shards = 3;
}

pub decodes_new : decode_block_v1 marshaller [] ≡ ok new_args
unfolding decode_block_v1 check_block_data_valid get_header_from_bytes
decodes_new = refl

abbrev pub topics : Topics
topics = record {
  save_block = codes "SaveBlock";
  revert_indexed_block = codes "RevertIndexedBlock";
  save_rounds_info = codes "SaveRoundsInfo";
  save_validators_rating = codes "SaveValidatorsRating";
  save_validators_pub_keys = codes "SaveValidatorsPubKeys";
  save_accounts = codes "SaveAccounts";
  finalized_block = codes "FinalizedBlock";
}

pub topics_differ : Unique (actions topics)
unfolding actions lookup str_eq
topics_differ = (refl, (refl, (refl, (refl, (refl, (refl, (refl, tt)))))))

-- A facade that counts the blocks pushed to it.
abbrev facade : EventsFacade ℕ
facade = record {
  handle_push_events = λ args n. some (ok tt, n + 1);
  handle_revert_events = λ b n. some n;
  handle_finalized_events = λ b n. some n;
}

abbrev base : BaseEventsPreProcessor ℕ
base = record { marshaller = marshaller; facade = facade }

abbrev processors : DataProcessors ℕ
processors = (0, events_pre_processor_v0 base) ∷ (1, events_pre_processor_v1 base) ∷ []

process_payload_lem_example :
    let p = lookup 1 processors in
    (process_payload processors topics [] (codes "SaveBlock") 1 0
      ≡ on_version p (λ d. d.save_block [] 0) 0)
    × (process_payload processors topics [] (codes "RevertIndexedBlock") 1 0
        ≡ on_version p (λ d. d.revert_indexed_block [] 0) 0)
    × (process_payload processors topics [] (codes "FinalizedBlock") 1 0
        ≡ on_version p (λ d. d.finalized_block [] 0) 0)
    × (process_payload processors topics [] (codes "SaveRoundsInfo") 1 0 ≡ some (ok tt, 0))
    × (process_payload processors topics [] (codes "SaveValidatorsRating") 1 0 ≡ some (ok tt, 0))
    × (process_payload processors topics [] (codes "SaveValidatorsPubKeys") 1 0 ≡ some (ok tt, 0))
    × (process_payload processors topics [] (codes "SaveAccounts") 1 0 ≡ some (ok tt, 0))
process_payload_lem_example = process_payload_lem processors topics topics_differ [] 1 0

-- The block that is pushed is counted.
pushed_one : on_version (lookup 1 processors) (λ d. d.save_block [] 0) 0 ≡ some (ok tt, 1)
unfolding lookup events_pre_processor_v1 decode_block_v1 check_block_data_valid
    get_header_from_bytes push_decoded
pushed_one = refl
