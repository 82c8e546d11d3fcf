-- ===== src/Service/Order/Filtering.antt =====
-- The number of the filtered form of a block.
use fabric_sdk_go_gm.Common.{◌≡◌, refl, Option, none, some}
use fabric_sdk_go_gm.Common.Outcome.{Outcome, done, ◌>>=◌, deref, IfDone, IfDone->>=, IfDone-any}
use fabric_sdk_go_gm.Fab.{Block, BlockHeader, FilteredBlock}
use fabric_sdk_go_gm.Service.Filter.{Protos}
use fabric_sdk_go_gm.Service.FilterBlock.{Collected, index_or_panic, filter_txs, to_filtered_block}

skip :
    {A B : Type 0} (P : B → Type 0) (r : Outcome A) (f : A → Outcome B)
    → ((a : A) → IfDone P (f a))
    → IfDone P (r >>= f)
skip P r f k = IfDone->>= (λ _. Unit {0}) P r f (IfDone-any r) (λ a _. k a)

number-of_header :
    (o : Option BlockHeader) (c : Collected)
    → IfDone
        (λ (f : FilteredBlock). f.number ≡ elim o [ none ↦ 0 | some h ↦ h.number ])
        (deref o >>= λ header.
          done (record { channel_id = c.0; number = header.number; filtered_transactions = c.1 }))
number-of_header none c = tt
number-of_header (some h) c = refl

pub number-to_filtered_block :
    (protos : Protos) (block : Block)
    → IfDone
        (λ (f : FilteredBlock). f.number ≡ elim block.header [ none ↦ 0 | some h ↦ h.number ])
        (to_filtered_block protos block)
unfolding to_filtered_block
number-to_filtered_block protos block =
    let P : FilteredBlock → Type 0 =
      λ f. f.number ≡ elim block.header [ none ↦ 0 | some h ↦ h.number ] in
    skip P (deref block.metadata) _ λ metadata. skip P (index_or_panic _) _ λ flags.
      skip P (deref block.data_) _
        λ txs. skip P (filter_txs protos flags 0 txs _) _ (number-of_header block.header)
