-- ===== src/Approvals/Guarded.antt =====
-- ui/src/kaja.ts: calls that nobody approved.
use kaja.Prelude.{
  ℕ, zero, suc, ◌≡◌, refl, ap, String, Bool, true, false, not, ◌&&◌, Option, none, some, List, [],
  ◌∷◌, ◌++◌, arith, any, all, get_elem?, set, nat_eq, is_some, if◌then◌else◌, Option-cases,
  Bool-cases, inl, inr, ◌==◌,
}
use kaja.Prelude.Dict
use kaja.Approvals.{
  Call, Calls, CallOperation, ApproveGesture, perform, perform_all, start, end_tick, write_call,
  approve, approve_call, decide, decide_call, decide_at,
}

-- It approves nothing, and the script does not itself wait for the call at the place.
abbrev pub withholds : ℕ → CallOperation → Bool
withholds place (CallOperation.await other) = not (nat_eq other place)
withholds place (CallOperation.decide_on block_id ApproveGesture.rejected) = true
withholds place (CallOperation.decide_on block_id gesture) = false
withholds place op = true

abbrev pub is_held : Option Call → Bool
is_held none = false
is_held (some call) = call.claimed && not call.sent

-- The call is held back, and nothing was approved for the whole run.
record IsGuarded (place : ℕ) (s : Calls) : Type 0 where
  held : is_held (get_elem? s.calls place) ≡ true
  none_standing : s.approved_methods ≡ []

held-append :
    (calls more : List Call) (place : ℕ)
    → is_held (get_elem? calls place) ≡ true
    → is_held (get_elem? (calls ++ more) place) ≡ true
held-append [] more place h = cc
held-append (call ∷ calls) more zero h = h
held-append (call ∷ calls) more (suc place) h = held-append calls more place h

pub get_elem?-set :
    (calls : List Call) (i j : ℕ) (call : Call)
    → get_elem? (set calls i call) j
      ≡ (if nat_eq i j && is_some (get_elem? calls j) then some call else get_elem? calls j)
get_elem?-set [] i j call = ground arith
get_elem?-set (first ∷ calls) zero zero call = refl
get_elem?-set (first ∷ calls) zero (suc j) call = ground arith
get_elem?-set (first ∷ calls) (suc i) zero call = ground arith
get_elem?-set (first ∷ calls) (suc i) (suc j) call = ground (arith, get_elem?-set calls i j call)

module _ (place : ℕ) (s : Calls) (h : IsGuarded place s) where
  start-IsGuarded : (other : ℕ) → nat_eq other place ≡ false → IsGuarded place (start other s)
  unfolding start
  start-IsGuarded other apart = elim (Option-cases (get_elem? s.calls other)) [
    | inl gone ↦ rw (gone, start) h
    | inr (call, here) ↦
        (let sent : Call = record call { sent = true } in
          rw (here, start)
            (record {
              held = ground (arith, h.held, apart, get_elem?-set s.calls other place sent);
              none_standing = h.none_standing;
            }))
  ]

  end_tick-IsGuarded : (other : ℕ) → IsGuarded place (end_tick other s)
  unfolding end_tick
  end_tick-IsGuarded other = elim (Option-cases (get_elem? s.calls other)) [
    | inl gone ↦ rw (gone, end_tick) h
    | inr (call, here) ↦
        rw (here, end_tick)
          (elim (Bool-cases call.claimed) [
            | inl claimed ↦ rw claimed h
            | inr free ↦ rw free (start-IsGuarded other (ground (arith, h.held, here, free)))
          ])
  ]

  approve-IsGuarded : (other : ℕ) (block_id : String) → IsGuarded place (approve other block_id s).0
  unfolding approve approve_call
  approve-IsGuarded other block_id = elim (Option-cases (get_elem? s.calls other)) [
    | inl gone ↦ rw (gone, approve) h
    | inr (call, here) ↦
        (let claimed : Call = record call { claimed = true } in
          let standing : any (λ method. method == call.label) s.approved_methods ≡ false =
            ap (any (λ method. method == call.label)) h.none_standing in
          rw (here, approve)
            (elim (Bool-cases call.sent) [
              | inl sent ↦ rw sent h
              | inr unsent ↦ rw unsent (
                  rw standing (record {
                    held =
                        ground
                          (arith, h.held, here, unsent, get_elem?-set s.calls other place claimed);
                    none_standing = h.none_standing;
                  }))
            ]))
  ]

  decide-IsGuarded :
      (block_id : String) → IsGuarded place (decide block_id ApproveGesture.rejected s).0
  unfolding decide decide_call
  decide-IsGuarded block_id = elim (Option-cases (Dict.lookup block_id s.asking)) [
    | inl gone ↦ rw (gone, decide) h
    | inr (other, asked) ↦
        rw (asked, decide)
          (elim (Option-cases (get_elem? s.calls other)) [
            | inl gone ↦ rw (gone, decide_at) h
            | inr (call, here) ↦
                rw (here, decide_at) (record { held = h.held; none_standing = h.none_standing })
          ])
  ]

  perform-IsGuarded :
      (op : CallOperation) → withholds place op ≡ true → IsGuarded place (perform op s)
  unfolding perform write_call
  perform-IsGuarded (CallOperation.write label request) w = record {
    held = held-append s.calls _ place h.held;
    none_standing = h.none_standing;
  }
  perform-IsGuarded (CallOperation.end_of_tick other) w = end_tick-IsGuarded other
  perform-IsGuarded (CallOperation.await other) w = start-IsGuarded other (ground (arith, w))
  perform-IsGuarded (CallOperation.approve_of other block_id) w = approve-IsGuarded other block_id
  perform-IsGuarded (CallOperation.decide_on block_id ApproveGesture.rejected) w =
      decide-IsGuarded block_id
  perform-IsGuarded (CallOperation.decide_on block_id ApproveGesture.approved) w = cc
  perform-IsGuarded (CallOperation.decide_on block_id ApproveGesture.all) w = cc

perform_all-IsGuarded :
    (place : ℕ) (ops : List CallOperation) (s : Calls)
    → all (withholds place) ops ≡ true
    → IsGuarded place s
    → IsGuarded place (perform_all ops s)
unfolding perform_all
perform_all-IsGuarded place [] s w h = h
perform_all-IsGuarded place (op ∷ ops) s w h =
    perform_all-IsGuarded place ops (perform op s) (ground (arith, w))
      (perform-IsGuarded place s h op (ground (arith, w)))

claimed-IsGuarded :
    (place : ℕ) (block_id : String) (s : Calls) (call : Call)
    → get_elem? s.calls place ≡ some call
    → call.sent ≡ false
    → s.approved_methods ≡ []
    → IsGuarded place (approve place block_id s).0
unfolding approve approve_call
claimed-IsGuarded place block_id s call here unsent none_standing =
    let claimed : Call = record call { claimed = true } in
    let standing : any (λ method. method == call.label) s.approved_methods ≡ false =
      ap (any (λ method. method == call.label)) none_standing in
    rw (here, approve)
      (rw unsent (
        rw standing (record {
          held = ground (arith, here, unsent, get_elem?-set s.calls place place claimed);
          none_standing = none_standing;
        })))

-- A call that is handed to `approve` before it is sent, while no method has a standing approval, is
-- held back through whatever follows, as long as the user approves nothing and the script does not
-- wait for that very call itself.
pub approve-held :
    (place : ℕ) (block_id : String) (s : Calls) (call : Call) (ops : List CallOperation)
    → get_elem? s.calls place ≡ some call
    → call.sent ≡ false
    → s.approved_methods ≡ []
    → all (withholds place) ops ≡ true
    → is_held (get_elem? (perform_all ops (approve place block_id s).0).calls place) ≡ true
approve-held place block_id s call ops here unsent none_standing w =
    (perform_all-IsGuarded place ops (approve place block_id s).0 w
      (claimed-IsGuarded place block_id s call here unsent none_standing)).held
