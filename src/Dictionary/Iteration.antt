-- ===== src/Dictionary/Iteration.antt =====
-- What `for_each_assoc` visits.
use stros.Prelude.{ℕ, zero, suc, ◌≤◌, ◌≡◌, ◌≢◌, refl, sym, [], ◌∷◌, arith, some, get_or}
use stros.CString.{CString}
use stros.Dictionary.{Buckets, home, find, dlookup, associations}
use stros.Dictionary.Chain.{occurs, find_absent, find-append, occurs-append}
use stros.Dictionary.Validity.{IsValid}

module _ {ℓ} {V : Type ℓ} (q : CString) where
  -- The key stands in no chain.
  IsNowhere : Buckets V → Type 0
  IsNowhere cs = (i : ℕ) → occurs q (get_or cs i []) ≡ 0

  occurs_nowhere : (cs : Buckets V) → IsNowhere cs → occurs q (associations cs) ≡ 0
  unfolding IsNowhere associations occurs
  occurs_nowhere [] h = refl
  occurs_nowhere (c ∷ cs) h =
      rw (occurs-append q c (associations cs), h 0, occurs_nowhere cs (λ i. h (suc i)))

  -- Where it stands in one chain only, the visit finds what that chain holds.
  visit_one :
      (cs : Buckets V) (j : ℕ)
      → ((i : ℕ) → i ≢ j → occurs q (get_or cs i []) ≡ 0)
      → (find q (associations cs) ≡ find q (get_or cs j []))
        × (occurs q (associations cs) ≡ occurs q (get_or cs j []))
  unfolding associations find occurs
  visit_one [] j h = (refl, refl)
  visit_one (c ∷ cs) zero h =
      let rest : occurs q (associations cs) ≡ 0 =
        occurs_nowhere cs (unfold IsNowhere in λ i. h (suc i) (omega arith)) in
      (
        ground (arith, find-append q c (associations cs), find_absent q (associations cs) rest),
        rw (occurs-append q c (associations cs), rest) (omega arith),
      )
  visit_one (c ∷ cs) (suc j) h =
      let here : occurs q c ≡ 0 = h 0 (omega arith) in
      let (found, counted) = visit_one cs j (λ i n. h (suc i) (omega arith)) in
      (
        rw (find-append q c (associations cs), find_absent q c here, found),
        rw (occurs-append q c (associations cs), here, counted) (omega arith),
      )

  -- On a valid table `for_each_assoc` visits a key that is bound exactly with the node that
  -- `dlookup` finds first, at most once, and a key that is not bound never.
  pub find-associations :
      (dic : Buckets V)
      → IsValid dic
      → (find q (associations dic) ≡ dlookup (some dic) q) × (occurs q (associations dic) ≤ 1)
  unfolding dlookup
  find-associations dic valid =
      let (found, counted) = visit_one dic (home q) (λ i n. valid.placed q i (λ e. n (sym e))) in
      (found, rw counted (valid.once q (home q)))
