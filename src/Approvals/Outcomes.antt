-- ===== src/Approvals/Outcomes.antt =====
-- ui/src/kaja.ts: how a call that was held back is settled.
use kaja.Prelude.{
  ℕ, ◌≡◌, refl, String, Bool, true, false, Option, none, some, arith, get_elem?, set, eq_refl,
  if◌then◌else◌,
}
use kaja.Prelude.Dict
use kaja.Prelude.Dict.{lookup-insert, lookup-remove}
use kaja.Block.{ApproveBlock, Decision}
use kaja.Approvals.{
  decide_at, add_method, set_call, Call, Calls, ApproveGesture, Progress, start, approve,
  approve_call, decide, decide_call, is_standing, settle_block, claim, approve_block,
}
use kaja.Approvals.Guarded.{get_elem?-set}

abbrev pub is_sending : ApproveGesture → Bool
is_sending ApproveGesture.rejected = false
is_sending gesture = true

abbrev pub decision_of : ApproveGesture → Decision
decision_of ApproveGesture.rejected = Decision.rejected
decision_of gesture = Decision.approved

abbrev pub sent_of : Option Call → Option Bool
sent_of none = none
sent_of (some call) = some call.sent

abbrev pub decided : Option ApproveBlock → Option Decision
decided none = none
decided (some block) = block.decision

-- The state of a call whose block waits for a decision.
record IsAsked (place : ℕ) (block_id : String) (call : Call) (s : Calls) : Type 0 where
  asked : Dict.lookup block_id s.asking ≡ some place
  here : get_elem? s.calls place ≡ some call
  unsent : call.sent ≡ false
  standing : is_standing call.label s ≡ false

-- A decision has settled the call: its block shows the decision and waits no more, the call is sent
-- unless it was rejected, and approving it once more fails where it was sent.
pub record IsSettled (place : ℕ) (block_id again : String) (gesture : ApproveGesture)
    (result : Calls × Progress) : Type 0 where
  pub progress : result.1 ≡ (if is_sending gesture then Progress.sends else Progress.stopped)
  pub sent : sent_of (get_elem? result.0.calls place) ≡ some (is_sending gesture)
  pub shown : decided (Dict.lookup block_id result.0.blocks) ≡ some (decision_of gesture)
  pub over : Dict.has block_id result.0.asking ≡ false
  pub again_fails :
      (approve place again result.0).1
      ≡ (if is_sending gesture then Progress.already_sent else Progress.asks)

approve_sent :
    (place : ℕ) (again : String) (s : Calls) (call : Call)
    → get_elem? s.calls place ≡ some call
    → call.sent ≡ true
    → (approve place again s).1 ≡ Progress.already_sent
unfolding approve approve_call
approve_sent place again s call here sent = ground (arith, here, sent)

approve_unsent :
    (place : ℕ) (again : String) (s : Calls) (call : Call)
    → get_elem? s.calls place ≡ some call
    → call.sent ≡ false
    → is_standing call.label s ≡ false
    → (approve place again s).1 ≡ Progress.asks
unfolding approve approve_call
approve_unsent place again s call here unsent standing = ground (arith, here, unsent, standing)

sending_approves :
    (gesture : ApproveGesture) → is_sending gesture ≡ true → decision_of gesture ≡ Decision.approved
sending_approves ApproveGesture.approved h = refl
sending_approves ApproveGesture.all h = refl
sending_approves ApproveGesture.rejected h = cc

-- The call is sent as its block is settled, whatever stands approved from now on.
sent-IsSettled :
    (place : ℕ) (block_id again : String) (gesture : ApproveGesture) (standing : Bool) (s : Calls)
    (call : Call)
    → is_sending gesture ≡ true
    → get_elem? s.calls place ≡ some call
    → IsSettled place block_id again gesture
        (start place (settle_block block_id call Decision.approved standing s), Progress.sends)
unfolding start
sent-IsSettled place block_id again gesture standing s call sends here =
    let sent : Call = record call { sent = true } in
    let approved = settle_block block_id call Decision.approved standing s in
    let block : ApproveBlock = record (approve_block call) {
      decision = some Decision.approved;
      standing = standing;
    } in
    let placed : get_elem? (set s.calls place sent) place ≡ some sent =
      ground (arith, here, get_elem?-set s.calls place place sent) in
    rw (here, start)
      (record {
        progress = ground (arith, sends);
        sent = ground (arith, placed, sends);
        shown = ground (
          arith,
          eq_refl block_id,
          lookup-insert block_id block_id block s.blocks,
          sending_approves gesture sends,
        );
        over = ground (arith, eq_refl block_id, lookup-remove block_id block_id s.asking);
        again_fails = ground (
          arith,
          sends,
          approve_sent place again (set_call place sent approved) sent placed refl,
        );
      })

rejected-IsSettled :
    (place : ℕ) (block_id again : String) (s : Calls) (call : Call)
    → get_elem? s.calls place ≡ some call
    → call.sent ≡ false
    → is_standing call.label s ≡ false
    → IsSettled place block_id again ApproveGesture.rejected
        (settle_block block_id call Decision.rejected false s, Progress.stopped)
rejected-IsSettled place block_id again s call here unsent standing =
    let block : ApproveBlock = record (approve_block call) { decision = some Decision.rejected } in
    record {
      progress = refl;
      sent = ground (arith, here, unsent);
      shown = ground (arith, eq_refl block_id, lookup-insert block_id block_id block s.blocks);
      over = ground (arith, eq_refl block_id, lookup-remove block_id block_id s.asking);
      again_fails =
          approve_unsent place again (settle_block block_id call Decision.rejected false s) call
            here unsent standing;
    }

decide-IsSettled :
    (place : ℕ) (block_id again : String) (gesture : ApproveGesture) (s : Calls) (call : Call)
    → IsAsked place block_id call s
    → IsSettled place block_id again gesture (decide block_id gesture s)
unfolding decide decide_call
decide-IsSettled place block_id again ApproveGesture.approved s call h =
    rw (h.asked, decide)
      (rw (h.here, decide_at)
        (sent-IsSettled place block_id again ApproveGesture.approved false s call refl h.here))
decide-IsSettled place block_id again ApproveGesture.all s call h =
    rw (h.asked, decide)
      (rw (h.here, decide_at)
        (sent-IsSettled place block_id again ApproveGesture.all true
          (record s { approved_methods = add_method call.label s.approved_methods }) call refl
          h.here))
decide-IsSettled place block_id again ApproveGesture.rejected s call h =
    rw (h.asked, decide)
      (rw (h.here, decide_at)
        (rejected-IsSettled place block_id again s call h.here h.unsent h.standing))

abbrev asked_state : ℕ → String → Call → Calls → Calls
asked_state place block_id call s = record (claim place call s) {
  asking = Dict.insert block_id place s.asking;
  blocks = Dict.insert block_id (approve_block call) s.blocks;
}

asks_lem :
    (place : ℕ) (block_id : String) (s : Calls) (call : Call)
    → get_elem? s.calls place ≡ some call
    → call.sent ≡ false
    → is_standing call.label s ≡ false
    → approve place block_id s ≡ (asked_state place block_id call s, Progress.asks)
unfolding approve approve_call
asks_lem place block_id s call here unsent standing =
    rw (here, approve) (rw (unsent, approve_call) (rw standing refl))

-- A call that is handed to `approve` before it is sent, and whose method has no standing approval,
-- is asked about, and the user's decision settles it: its block shows the decision and waits no more,
-- the call is sent unless it was rejected, and a rejection stops the script. Approving the call once
-- more fails where it was sent.
pub decide-approve :
    (place : ℕ) (block_id again : String) (s : Calls) (call : Call) (gesture : ApproveGesture)
    → get_elem? s.calls place ≡ some call
    → call.sent ≡ false
    → is_standing call.label s ≡ false
    → ((approve place block_id s).1 ≡ Progress.asks)
      × IsSettled place block_id again gesture
          (decide block_id gesture (approve place block_id s).0)
decide-approve place block_id again s call gesture here unsent standing =
    let claimed : Call = record call { claimed = true } in
    let asks = asks_lem place block_id s call here unsent standing in
    rw asks (
      refl,
      decide-IsSettled place block_id again gesture (asked_state place block_id call s) claimed
          (record {
            asked =
                ground (arith, eq_refl block_id, lookup-insert block_id block_id place s.asking);
            here = ground (arith, here, get_elem?-set s.calls place place claimed);
            unsent = unsent;
            standing = standing;
          }),
    )
