-- ===== src/Block.antt =====
-- ui/src/blocks.ts: what a run drew, and the sparse map of cells that are still on their way.
pub mod Cells
use kaja.Prelude.{
  ℕ, String, Bool, true, false, not, ◌&&◌, Option, none, some, List, is_some, if◌then◌else◌,
}
use kaja.Prelude.NatDict.{NatDict}

pub record CellStatus : Type 0 where
  pub error : Option String
  pub retry : Bool

pub record TableBlock : Type 0 where
  pub columns : List String
  pub rows : List (List String)
  pub cells : Option (NatDict (NatDict CellStatus))
  pub live : Bool
  pub loading : Bool
  pub exhausted : Bool
  pub server_search : Bool
  pub loaded_search : Option String
  pub expired : Bool
  pub page_size : Option ℕ
  pub total : Option ℕ
  pub error : Option String

pub data AskAnswerType : Type 0 where
  str int select : AskAnswerType

pub record AskBlock : Type 0 where
  pub question : String
  pub answer_type : AskAnswerType
  pub choices : Option (List String)
  pub answer : Option String
  pub cancelled : Bool

pub data Decision : Type 0 where
  approved rejected : Decision

pub record ApproveBlock : Type 0 where
  pub method : String
  pub request : String
  pub decision : Option Decision
  pub standing : Bool

pub data Block : Type 0 where
  text : String → Block
  code : String → Option String → Block
  table : TableBlock → Block
  ask : AskBlock → Block
  approve : ApproveBlock → Block

unfoldable pub is_awaiting_user : Block → Bool
is_awaiting_user (Block.ask block) = not (is_some block.answer) && not block.cancelled
is_awaiting_user (Block.approve block) = not (is_some block.decision)
is_awaiting_user _ = false
