-- ===== src/Tree/Ledger.antt =====
-- ui/src/treeExpansion.ts: the ledger of method calls, most recent first.
use kaja.Prelude.{
  ◌≤◌, ◌≡◌, refl, arith, length, any, length-take, zero, suc, Bool-cases, inl, inr, true, ℕ, eq_iff,
  eq_refl, String, Bool, false, not, ◌&&◌, List, [], ◌∷◌, take, filter, if◌then◌else◌, ◌==◌,
}
use kaja.Tree.{MethodUse, Service, ledger_limit}

unfoldable pub method_use : String → Service → String → MethodUse
method_use app_name service method = record {
  app = app_name;
  package_name = service.package_name;
  service = service.name;
  method = method;
}

unfoldable pub same_use : MethodUse → MethodUse → Bool
same_use a b =
    a.app == b.app
    && a.package_name == b.package_name
    && a.service == b.service
    && a.method == b.method

abbrev pub is_front : List MethodUse → MethodUse → Bool
is_front [] use' = false
is_front (first ∷ rest) use' = same_use first use'

unfoldable pub with_use : List MethodUse → MethodUse → List MethodUse
unfolding same_use
with_use ledger use' =
    if is_front ledger use'
    then ledger
    else take ledger_limit (use' ∷ filter (λ entry. not (same_use entry use')) ledger)

-- No two entries of the ledger are of the same method.
unfoldable pub IsDistinct : List MethodUse → Type 0
IsDistinct [] = Unit
IsDistinct (use' ∷ ledger) = (any (same_use use') ledger ≡ false) × IsDistinct ledger

same_use_sym : (a b : MethodUse) → same_use a b ≡ same_use b a
unfolding same_use
same_use_sym a b = ground (
  arith,
  eq_iff a.app b.app,
  eq_iff b.app a.app,
  eq_iff a.package_name b.package_name,
  eq_iff b.package_name a.package_name,
  eq_iff a.service b.service,
  eq_iff b.service a.service,
  eq_iff a.method b.method,
  eq_iff b.method a.method,
)

same_use_refl : (a : MethodUse) → same_use a a ≡ true
unfolding same_use
same_use_refl a =
    rw (eq_refl a.app, eq_refl a.package_name, eq_refl a.service, eq_refl a.method) refl

others : MethodUse → List MethodUse → List MethodUse
others use' ledger = filter (λ entry. not (same_use entry use')) ledger

any-others :
    (use' : MethodUse) (ledger : List MethodUse) → any (same_use use') (others use' ledger) ≡ false
unfolding others
any-others use' [] = refl
any-others use' (entry ∷ ledger) = ground (arith, any-others use' ledger, same_use_sym use' entry)

any-filter :
    (p q : MethodUse → Bool) (xs : List MethodUse) → any p xs ≡ false → any p (filter q xs) ≡ false
any-filter p q [] h = refl
any-filter p q (x ∷ xs) h = ground (arith, any-filter p q xs)

any-take :
    (p : MethodUse → Bool) (n : ℕ) (xs : List MethodUse)
    → any p xs ≡ false
    → any p (take n xs) ≡ false
any-take p zero xs h = refl
any-take p (suc n) [] h = refl
any-take p (suc n) (x ∷ xs) h = ground (arith, any-take p n xs)

filter-IsDistinct :
    (q : MethodUse → Bool) (xs : List MethodUse) → IsDistinct xs → IsDistinct (filter q xs)
unfolding IsDistinct
filter-IsDistinct q [] h = tt
filter-IsDistinct q (x ∷ xs) h = elim (Bool-cases (q x)) [
  | inl kept ↦ rw kept (any-filter (same_use x) q xs h.0, filter-IsDistinct q xs h.1)
  | inr gone ↦ rw gone (filter-IsDistinct q xs h.1)
]

take-IsDistinct : (n : ℕ) (xs : List MethodUse) → IsDistinct xs → IsDistinct (take n xs)
unfolding IsDistinct
take-IsDistinct zero xs h = tt
take-IsDistinct (suc n) [] h = tt
take-IsDistinct (suc n) (x ∷ xs) h = (any-take (same_use x) n xs h.0, take-IsDistinct n xs h.1)

-- When the entries of a ledger of at most 200 are of different methods, so are those of the ledger
-- with one use more; it still has at most 200 entries, and its first is of the method used.
pub with_use-IsDistinct :
    (ledger : List MethodUse) (use' : MethodUse)
    → IsDistinct ledger
    → length ledger ≤ 200
    → IsDistinct (with_use ledger use')
      × (length (with_use ledger use') ≤ 200)
      × (is_front (with_use ledger use') use' ≡ true)
unfolding with_use others
with_use-IsDistinct ledger use' h room = elim (Bool-cases (is_front ledger use')) [
  | inl front ↦ rw front (h, room, front)
  | inr behind ↦ rw behind (
    take-IsDistinct 200 (use' ∷ others use' ledger)
        (unfold IsDistinct in (any-others use' ledger, filter-IsDistinct _ ledger h)),
    omega (arith, length-take 199 (others use' ledger)),
    same_use_refl use',
  )
]
