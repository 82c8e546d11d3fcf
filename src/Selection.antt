-- ===== src/Selection.antt =====
-- pkg/client/common/selection: the choice and the order of the peers that a request goes to.
pub mod Tests
pub mod Balancer
pub mod Groups
pub mod Heights
pub mod Sorter
use fabric_sdk_go_gm.Common.{ℕ, Option}
use fabric_sdk_go_gm.Common.Text.{Text}

-- fab.Peer, an interface: `addr` is the identity by which Go compares two peers, and `block_height`
-- is `none` of a peer that is no fab.PeerState.
pub record Peer : Type 0 where
  pub addr : ℕ
  pub url : Text
  pub msp_id : Text
  pub block_height : Option ℕ
