-- ===== src/Group/Stated.antt =====
-- ui/src/runs.ts: the counts of `failureNotices`.
use kaja.Prelude.{
  ℕ, ◌+◌, ◌≡◌, ap, ◌∙◌, String, Bool, true, false, Option, none, some, List, [], ◌∷◌, length,
  filter, sum_by, arith, Bool-cases, Option-cases, inl, inr,
}
use kaja.Prelude.Dict
use kaja.Prelude.Dict.{Dict, sum_by-insert, held}
use kaja.Call.{MethodCall, ErrorValue}
use kaja.Run.{ConsoleItem, is_truthy}
use kaja.Group.Notices.{
  FailureNotice, add_notice, note_item, notices_from, failure_notices, notice_key, first_notice,
}

-- A call with a truthy error.
abbrev pub item_fails : ConsoleItem → Bool
item_fails item = elim item.call [ none ↦ false | some call ↦ is_truthy call.error ]

abbrev pub stated : List FailureNotice → ℕ
stated = sum_by (λ (n : FailureNotice). n.count)

stated-add_notice :
    (id : String) (call : MethodCall) (e : ErrorValue) (notices : Dict FailureNotice)
    → stated (Dict.values (add_notice id call e notices)) ≡ stated (Dict.values notices) + 1
unfolding add_notice first_notice
stated-add_notice id call e notices =
    elim (Option-cases (Dict.lookup (notice_key call e) notices)) [
      | inl fresh ↦
          rw (fresh, add_notice)
            (omega (arith, counted (first_notice id call e), held_as none fresh))
      | inr (known, here) ↦
          rw (here, add_notice)
            (omega (
              arith,
              counted (record known { count = known.count + 1 }),
              held_as (some known) here,
            ))
    ]
  where
    counted :
        (notice : FailureNotice)
        → stated (Dict.values (Dict.insert (notice_key call e) notice notices))
            + held (λ (n : FailureNotice). n.count) (Dict.lookup (notice_key call e) notices)
          ≡ stated (Dict.values notices) + notice.count
    counted notice =
        sum_by-insert (λ (n : FailureNotice). n.count) (notice_key call e) notice notices

    held_as :
        (found : Option FailureNotice)
        → Dict.lookup (notice_key call e) notices ≡ found
        → held (λ (n : FailureNotice). n.count) (Dict.lookup (notice_key call e) notices)
          ≡ held (λ (n : FailureNotice). n.count) found
    held_as found there = ap (held (λ (n : FailureNotice). n.count)) there

abbrev one_if : Bool → ℕ
one_if true = 1
one_if false = 0

stated-note_item :
    (item : ConsoleItem) (notices : Dict FailureNotice)
    → stated (Dict.values (note_item item notices))
      ≡ stated (Dict.values notices) + one_if (item_fails item)
unfolding note_item
stated-note_item item notices = elim (Option-cases item.call) [
  | inl silent ↦ rw (silent, note_item) (omega arith)
  | inr (call, called) ↦ elim (Option-cases call.error) [
    | inl fine ↦ rw (called, note_item) (rw (fine, note_item) (omega arith))
    | inr (e, failed) ↦ elim (Bool-cases e.truthy) [
      | inl truthy ↦
          rw (called, note_item)
            (rw (failed, note_item) (rw truthy (stated-add_notice item.id call e notices)))
      | inr falsy ↦ rw (called, note_item) (rw (failed, note_item) (rw falsy (omega arith)))
    ]
  ]
]

stated-notices_from :
    (items : List ConsoleItem) (notices : Dict FailureNotice)
    → stated (Dict.values (notices_from items notices))
      ≡ stated (Dict.values notices) + length (filter item_fails items)
unfolding notices_from
stated-notices_from [] notices = omega arith
stated-notices_from (item ∷ items) notices = elim (Bool-cases (item_fails item)) [
  | inl fails ↦ rw fails (
      stated-notices_from items (note_item item notices)
      ∙ omega (arith, stated-note_item item notices, ap one_if fails))
  | inr fine ↦ rw fine (
      stated-notices_from items (note_item item notices)
      ∙ omega (arith, stated-note_item item notices, ap one_if fine))
]

-- The counts of the notices add up to the number of items whose call failed with a truthy error,
-- however the failures fall together.
pub stated-failure_notices :
    (items : List ConsoleItem) → stated (failure_notices items) ≡ length (filter item_fails items)
unfolding failure_notices
stated-failure_notices items = stated-notices_from items [] ∙ omega arith
