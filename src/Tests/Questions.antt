-- ===== src/Tests/Questions.antt =====
-- The theorems on questions and on calls that are held back, at an example run.
use kaja.Prelude.{◌≡◌, refl, true, false, List, [], ◌∷◌, get_elem?}
use kaja.Block.{AskAnswerType}
use kaja.Ask.{parse_integer, normalize_answer}
use kaja.Ask.Answers.{parse_integer-normalize_answer}
use kaja.Approvals.{
  Call, Calls, CallOperation, ApproveGesture, Progress, approve, decide, perform_all,
}
use kaja.Approvals.Guarded.{is_held, approve-held}
use kaja.Approvals.Outcomes.{IsSettled, decide-approve}

parse_integer-normalize_answer_example :
    (parse_integer (normalize_answer AskAnswerType.int " +007 ") ≡ parse_integer " +007 ")
    × (normalize_answer AskAnswerType.int (normalize_answer AskAnswerType.int " +007 ")
        ≡ normalize_answer AskAnswerType.int " +007 ")
parse_integer-normalize_answer_example = parse_integer-normalize_answer " +007 "

abbrev refund : Call
refund = record { label = "Orders.Refund"; request = "{}"; sent = false; claimed = false }

abbrev written : Calls
written = record { calls = refund ∷ []; approved_methods = []; asking = []; blocks = [] }

-- The tick ends, another call goes out, and the user says no.
abbrev operations : List CallOperation
operations =
    CallOperation.end_of_tick 0
    ∷ CallOperation.write "Orders.List" "{}"
    ∷ CallOperation.await 1
    ∷ CallOperation.decide_on "b1" ApproveGesture.rejected
    ∷ []

approve-held_example :
    is_held (get_elem? (perform_all operations (approve 0 "b1" written).0).calls 0) ≡ true
approve-held_example = approve-held 0 "b1" written refund operations refl refl refl refl

decide-approve_example :
    ((approve 0 "b1" written).1 ≡ Progress.asks)
    × IsSettled 0 "b1" "b2" ApproveGesture.all
        (decide "b1" ApproveGesture.all (approve 0 "b1" written).0)
decide-approve_example = decide-approve 0 "b1" "b2" written refund ApproveGesture.all refl refl refl
