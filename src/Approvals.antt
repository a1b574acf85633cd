-- ===== src/Approvals.antt =====
-- ui/src/kaja.ts: the calls of one run, and how `kaja.approve` holds one back until the user has
-- decided. A call is named by its place in the order in which the script wrote them, and a block by
-- its identifier. `request` is the text that `formatRequest` gives.
pub mod Guarded
pub mod Outcomes
use kaja.Prelude.{
  ℕ, zero, suc, String, Bool, true, false, not, ◌&&◌, ◌||◌, Option, none, some, List, [], ◌∷◌, ◌++◌,
  any, get_elem?, set, length, is_some, if◌then◌else◌, ◌==◌,
}
use kaja.Prelude.Dict
use kaja.Prelude.Dict.{Dict}
use kaja.Block.{ApproveBlock, Decision}

pub record Call : Type 0 where
  pub label : String
  pub request : String
  pub sent : Bool
  pub claimed : Bool

pub data ApproveGesture : Type 0 where
  approved all rejected : ApproveGesture

-- `asking` has the calls that wait for a decision, by their blocks; `blocks` is what the canvas was
-- last handed of each block.
pub record Calls : Type 0 where
  pub calls : List Call
  pub approved_methods : List String
  pub asking : Dict ℕ
  pub blocks : Dict ApproveBlock

unfoldable pub no_calls : Calls
no_calls = record { calls = []; approved_methods = []; asking = []; blocks = [] }

-- `new Call`
unfoldable pub write_call : String → String → Calls → Calls
write_call label request s = record s {
  calls =
      s.calls ++ (record { label = label; request = request; sent = false; claimed = false }) ∷ [];
}

abbrev pub set_call : ℕ → Call → Calls → Calls
set_call place call s = record s { calls = set s.calls place call }

-- A call that is sent already is not sent again.
unfoldable pub start : ℕ → Calls → Calls
start place s = elim (get_elem? s.calls place) [
  | none ↦ s
  | some call ↦ set_call place (record call { sent = true }) s
]

-- The end of the tick in which the call was written.
unfoldable pub end_tick : ℕ → Calls → Calls
unfolding start
end_tick place s = elim (get_elem? s.calls place) [
  | none ↦ s
  | some call ↦ if call.claimed then s else start place s
]

-- How far `approve` or a decision came.
pub data Progress : Type 0 where
  no_call already_sent asks sends stopped : Progress

abbrev pub approve_block : Call → ApproveBlock
approve_block call = record {
  method = call.label;
  request = call.request;
  decision = none;
  standing = false;
}

abbrev pub claim : ℕ → Call → Calls → Calls
claim place call s = set_call place (record call { claimed = true }) s

abbrev pub is_standing : String → Calls → Bool
is_standing label s = any (λ method. method == label) s.approved_methods

unfoldable pub approve_call : ℕ → String → Call → Calls → Calls × Progress
unfolding start
approve_call place block_id call s =
    if call.sent
    then (s, Progress.already_sent)
    else (if is_standing call.label s then (start place (claim place call s), Progress.sends) else (
      record (claim place call s) {
        asking = Dict.insert block_id place s.asking;
        blocks = Dict.insert block_id (approve_block call) s.blocks;
      },
      Progress.asks,
    ))

-- `approve`, as far as the question.
unfoldable pub approve : ℕ → String → Calls → Calls × Progress
unfolding approve_call
approve place block_id s = elim (get_elem? s.calls place) [
  | none ↦ (s, Progress.no_call)
  | some call ↦ approve_call place block_id call s
]

abbrev pub settle_block : String → Call → Decision → Bool → Calls → Calls
settle_block block_id call decision standing s = record s {
  asking = Dict.remove block_id s.asking;
  blocks =
      Dict.insert block_id
        (record (approve_block call) { decision = some decision; standing = standing }) s.blocks;
}

abbrev pub add_method : String → List String → List String
add_method label methods =
    if any (λ method. method == label) methods then methods else methods ++ label ∷ []

unfoldable pub decide_call : String → ℕ → Call → ApproveGesture → Calls → Calls × Progress
unfolding start
decide_call block_id place call ApproveGesture.rejected s =
    (settle_block block_id call Decision.rejected false s, Progress.stopped)
decide_call block_id place call ApproveGesture.approved s =
    (start place (settle_block block_id call Decision.approved false s), Progress.sends)
decide_call block_id place call ApproveGesture.all s = (
  start place (
      settle_block block_id call Decision.approved true
        (record s { approved_methods = add_method call.label s.approved_methods })),
  Progress.sends,
)

abbrev pub decide_at : String → Option ℕ → ApproveGesture → Calls → Calls × Progress
decide_at block_id none gesture s = (s, Progress.no_call)
decide_at block_id (some place) gesture s = elim (get_elem? s.calls place) [
  | none ↦ (s, Progress.no_call)
  | some call ↦ decide_call block_id place call gesture s
]

-- The rest of `approve`, as the user decides or the run is cancelled.
unfoldable pub decide : String → ApproveGesture → Calls → Calls × Progress
unfolding decide_call
decide block_id gesture s = decide_at block_id (Dict.lookup block_id s.asking) gesture s

-- What a script and its user do.
pub data CallOperation : Type 0 where
  write : String → String → CallOperation
  end_of_tick : ℕ → CallOperation
  await : ℕ → CallOperation
  approve_of : ℕ → String → CallOperation
  decide_on : String → ApproveGesture → CallOperation

unfoldable pub perform : CallOperation → Calls → Calls
unfolding write_call end_tick start approve decide
perform (CallOperation.write label request) s = write_call label request s
perform (CallOperation.end_of_tick place) s = end_tick place s
perform (CallOperation.await place) s = start place s
perform (CallOperation.approve_of place block_id) s = (approve place block_id s).0
perform (CallOperation.decide_on block_id gesture) s = (decide block_id gesture s).0

unfoldable pub perform_all : List CallOperation → Calls → Calls
unfolding perform
perform_all [] s = s
perform_all (op ∷ ops) s = perform_all ops (perform op s)
