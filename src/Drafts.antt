-- ===== src/Drafts.antt =====
-- ui/src/drafts.ts: the drafts, which of them are browsing buffers and which are work, their order
-- and their sweep. The title that `deriveDraftTitle` reads from the code is a parameter.
pub mod Orders
use kaja.Prelude.{
  ℕ, ◌+◌, ◌-◌, ◌*◌, String, Bool, true, false, not, ◌&&◌, ◌||◌, Option, none, some, List, [], ◌∷◌,
  ltb, leb, nat_eq, any, find?, filter, is_some, get_or, if◌then◌else◌, ◌==◌,
}

abbrev pub sweep_days : ℕ
sweep_days = 7

pub record Draft : Type 0 where
  pub id : String
  pub title : String
  pub code : String
  pub generated_code : String
  pub ran : Bool
  pub origin_app_name : Option String
  pub agent_client : Option String
  pub created_at : ℕ
  pub updated_at : ℕ

module _ (derive_title : String → Option String) where
  unfoldable pub create_draft : String → String → Option String → ℕ → Draft
  create_draft fresh code origin_app_name now = record {
    id = fresh;
    title = get_or (derive_title code) "Draft";
    code = code;
    generated_code = code;
    ran = false;
    origin_app_name = origin_app_name;
    agent_client = none;
    created_at = now;
    updated_at = now;
  }

  unfoldable pub take_over : Draft → String → Option String → ℕ → Draft
  take_over draft code origin_app_name now = record draft {
    title = get_or (derive_title code) "Draft";
    code = code;
    generated_code = code;
    origin_app_name = origin_app_name;
    updated_at = now;
  }

  unfoldable pub with_code : Draft → String → ℕ → Draft
  with_code draft code now = record draft {
    code = code;
    title = get_or (derive_title code) draft.title;
    updated_at = now;
  }

  unfoldable pub mark_run : Draft → String → ℕ → Draft
  mark_run draft code now = record draft {
    code = code;
    title = get_or (derive_title code) draft.title;
    ran = true;
    updated_at = now;
  }

unfoldable pub is_untouched : Draft → Bool
is_untouched draft = not draft.ran && draft.code == draft.generated_code

abbrev pub is_agent_draft : Draft → Bool
is_agent_draft draft = is_some draft.agent_client

abbrev same_origin : Option String → Option String → Bool
same_origin none none = true
same_origin (some a) (some b) = a == b
same_origin _ _ = false

unfoldable pub find_untouched : List Draft → String → Option String → Option Draft
unfolding is_untouched
find_untouched drafts code origin_app_name =
    find?
      (λ draft.
        not (is_agent_draft draft)
        && is_untouched draft
        && draft.code == code
        && same_origin draft.origin_app_name origin_app_name)
      drafts

abbrev pub reopen : Draft → ℕ → Draft
reopen draft now = record draft { updated_at = now }

unfoldable pub rank : Draft → ℕ
unfolding is_untouched
rank draft = if is_agent_draft draft then 0 else (if is_untouched draft then 2 else 1)

-- Whether `a` may stand before `b`: `rank(a) - rank(b) || b.updatedAt - a.updatedAt` is not positive.
unfoldable pub before : Draft → Draft → Bool
unfolding rank
before a b =
    if nat_eq (rank a) (rank b) then leb b.updated_at a.updated_at else ltb (rank a) (rank b)

-- `sort` is stable, so it is the insertion of each draft before the first that must follow it.
unfoldable pub insert_sorted : Draft → List Draft → List Draft
unfolding before
insert_sorted d [] = d ∷ []
insert_sorted d (e ∷ es) =
    let rest = insert_sorted d es in if before d e then d ∷ e ∷ es else e ∷ rest

unfoldable pub order_drafts : List Draft → List Draft
unfolding insert_sorted
order_drafts [] = []
order_drafts (d ∷ ds) = insert_sorted d (order_drafts ds)

unfoldable pub untouched_drafts : List Draft → List Draft
unfolding is_untouched
untouched_drafts drafts = filter (λ draft. not (is_agent_draft draft) && is_untouched draft) drafts

unfoldable pub edited_drafts : List Draft → List Draft
unfolding is_untouched
edited_drafts drafts =
    filter (λ draft. not (is_agent_draft draft) && not (is_untouched draft)) drafts

abbrev pub sweep_ms : ℕ
sweep_ms = sweep_days * 24 * 60 * 60 * 1000

-- `draft.updatedAt >= now - SWEEP`, with the subtraction on the other side.
unfoldable pub survives : ℕ → List String → Draft → Bool
unfolding is_untouched
survives now open_ids draft =
    any (λ id. id == draft.id) open_ids
    || is_agent_draft draft
    || not (is_untouched draft)
    || leb now (draft.updated_at + sweep_ms)

unfoldable pub prune_drafts : List Draft → ℕ → List String → Bool → List Draft
unfolding survives
prune_drafts drafts now open_ids sweep =
    if sweep then filter (survives now open_ids) drafts else drafts
