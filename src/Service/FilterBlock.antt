-- ===== src/Service/FilterBlock.antt =====
-- dispatcher.go: `toFilteredBlock`, the filtered form of a full block.
use fabric_sdk_go_gm.Common.{ℕ, suc, List, [], ◌∷◌, ◌++◌, Option, none, some, get_elem?}
use fabric_sdk_go_gm.Common.Text.{Text}
use fabric_sdk_go_gm.Common.Outcome.{Outcome, done, panics, ◌>>=◌, deref, index_out_of_range}
use fabric_sdk_go_gm.Fab.{Bytes, Block, FilteredBlock, FilteredTransaction}
use fabric_sdk_go_gm.Service.Filter.{Protos, Parsed, ok, err, panicked, get_filtered_tx}

abbrev pub index_or_panic : {A : Type 0} → Option A → Outcome A
index_or_panic none = panics index_out_of_range
index_or_panic (some a) = done a

-- The loop's variables: the channel of the last good transaction, and the good transactions.
abbrev pub Collected : Type 0
Collected = Text × List FilteredTransaction

-- A transaction that cannot be decoded is skipped.
unfoldable pub collect : Parsed (FilteredTransaction × Text) → Collected → Outcome Collected
collect (ok (tx, ch)) c = done (ch, c.1 ++ tx ∷ [])
collect (err e) c = done c
collect (panicked p) c = panics p

module _ (protos : Protos) where
  unfoldable pub filter_txs : Bytes → ℕ → List Bytes → Collected → Outcome Collected
  filter_txs flags i [] c = done c
  filter_txs flags i (bytes ∷ rest) c =
      index_or_panic (protos.validation_flag flags i)
      >>= (λ code. collect (get_filtered_tx protos bytes code) c)
      >>= filter_txs flags (suc i) rest

  unfoldable pub to_filtered_block : Block → Outcome FilteredBlock
  to_filtered_block block = do
    metadata ← deref block.metadata
    flags ← index_or_panic (get_elem? metadata protos.transactions_filter)
    txs ← deref block.data_
    c ← filter_txs flags 0 txs ([], [])
    header ← deref block.header
    done (record { channel_id = c.0; number = header.number; filtered_transactions = c.1 })
