-- ===== src/Process/EventsHandler/Keys.antt =====
-- process/eventsHandler.go: `getPrefixLockerKey`, and which events share a key.
use mx_chain_notifier_go.Base.{
  ℕ, ◌≡◌, ◌≢◌, sym, ap, GoString, Bytes, [], ◌∷◌, ◌++◌, arith, str_eq, All, encode_to_string,
  IsByte, IsHexDigit, encode_to_string-injective, encode_to_string-IsHexDigit,
}
use mx_chain_notifier_go.Common.{push_logs_and_events, revert_block_events, finalized_block_events}
use mx_chain_notifier_go.Process.LockKeys.{
  get_prefix_locker_key, revert_key_prefix, finalized_key_prefix,
}

-- What is checked for duplicates: a block by its header hash, a revert and a finalization by the
-- hash that they carry.
pub data Checked : Type 0 where
  block : Bytes → Checked
  reverted : GoString → Checked
  finalized : GoString → Checked

-- The key that the handlers build for it.
unfoldable pub checked_key : Checked → GoString
checked_key (block header_hash) =
    get_prefix_locker_key push_logs_and_events ++ encode_to_string header_hash
checked_key (reverted hash) = get_prefix_locker_key revert_block_events ++ hash
checked_key (finalized hash) = get_prefix_locker_key finalized_block_events ++ hash

-- A header hash is a sequence of bytes.
abbrev pub IsOfBytes : Checked → Type 0
IsOfBytes (block header_hash) = All IsByte header_hash
IsOfBytes _ = Unit {0}

abbrev first : GoString → ℕ
first [] = 0
first (c ∷ s) = c

not-hex : (hash s : GoString) → All IsHexDigit hash → hash ≢ revert_key_prefix ++ s
not-hex [] s h e = cc
not-hex (c ∷ hash) s h e = ground arith

not-hex_finalized : (hash s : GoString) → All IsHexDigit hash → hash ≢ finalized_key_prefix ++ s
not-hex_finalized [] s h e = cc
not-hex_finalized (c ∷ []) s h e = cc
not-hex_finalized (c ∷ d ∷ hash) s h e = ground arith

-- Where the header hash of a block is a sequence of bytes, no two events share a key: those with the
-- same key are of the same kind and have the same hash.
pub checked_key-injective :
    (c c' : Checked) → IsOfBytes c → IsOfBytes c' → checked_key c ≡ checked_key c' → c ≡ c'
unfolding checked_key get_prefix_locker_key str_eq
checked_key-injective (block h) (block h') b b' e =
    ap block (encode_to_string-injective h h' b b' e)
checked_key-injective (block h) (reverted s) b b' e =
    absurd (not-hex _ s (encode_to_string-IsHexDigit h b) e)
checked_key-injective (block h) (finalized s) b b' e =
    absurd (not-hex_finalized _ s (encode_to_string-IsHexDigit h b) e)
checked_key-injective (reverted s) (block h) b b' e =
    absurd (not-hex _ s (encode_to_string-IsHexDigit h b') (sym e))
checked_key-injective (reverted s) (reverted s') b b' e = ap reverted (ground arith)
checked_key-injective (reverted s) (finalized s') b b' e = absurd (omega (arith, ap first e))
checked_key-injective (finalized s) (block h) b b' e =
    absurd (not-hex_finalized _ s (encode_to_string-IsHexDigit h b') (sym e))
checked_key-injective (finalized s) (reverted s') b b' e = absurd (omega (arith, ap first e))
checked_key-injective (finalized s) (finalized s') b b' e = ap finalized (ground arith)
