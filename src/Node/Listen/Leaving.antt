-- ===== src/Node/Listen/Leaving.antt =====
-- What a stopped node leaves to the thread of a subscriber.
use stros.Prelude.{
  ℕ, suc, ◌+◌, ◌-◌, ◌≤◌, ◌≡◌, refl, ◌∙◌, sym, ap, inl, inr, false, arith, Option, some, none, ok,
  pos, length, Bool-cases, >>=-eq-ok, ◌==◌,
}
use stros.CString.{CString}
use stros.ItemList.{Floats, Items, list_size, list_at, value_s, value_i}
use stros.Request.Reply.{RpcResponse}
use stros.Node.Listen.{
  Spot, looping, status_test, uri_test, refresh_test, asking, asked, ready, ended, Listener,
  test_uri, answer_address, take_address, take_answer,
}

-- The accesses that the thread of a stopped node has left at most, and the visits.
abbrev pub most : Spot → ℕ
most looping = 1
most status_test = 7
most uri_test = 6
most refresh_test = 5
most asking = 4
most (asked resp) = 3
most ready = 2
most ended = 0

abbrev pub owed : Spot → ℕ
owed looping = 0
owed ended = 0
owed _ = 1

pub most_bound : (spot : Spot) → (most spot ≤ 7) × (owed spot ≤ 1)
most_bound looping = (omega arith, omega arith)
most_bound status_test = (omega arith, omega arith)
most_bound uri_test = (omega arith, omega arith)
most_bound refresh_test = (omega arith, omega arith)
most_bound asking = (omega arith, omega arith)
most_bound (asked resp) = (omega arith, omega arith)
most_bound ready = (omega arith, omega arith)
most_bound ended = (omega arith, omega arith)

pub most_none : (spot : Spot) → most spot ≤ 0 → spot ≡ ended
most_none looping h = absurd (omega arith)
most_none status_test h = absurd (omega arith)
most_none uri_test h = absurd (omega arith)
most_none refresh_test h = absurd (omega arith)
most_none asking h = absurd (omega arith)
most_none (asked resp) h = absurd (omega arith)
most_none ready h = absurd (omega arith)
most_none ended h = refl

-- A stopped node whose thread has so many accesses and visits left.
pub record IsLeaving (n m : ℕ) (s : Listener) : Type 0 where
  pub over : s.ros_ok ≡ false
  pub few : most s.spot ≤ n
  pub bound : length s.visits + owed s.spot ≤ m

-- Another spot that has less left.
pub closer :
    (n m : ℕ) (s : Listener) (spot next : Spot)
    → s.spot ≡ spot
    → suc (most next) ≤ most spot
    → owed next ≤ owed spot
    → IsLeaving n m s
    → IsLeaving (n - 1) m (record s { spot = next })
closer n m s spot next e less no_more h =
    let few : most spot ≤ n = rw e at h.few in
    let bound : length s.visits + owed spot ≤ m = rw e at h.bound in
    record { over = h.over; few = omega arith; bound = omega arith }

-- The listener that took an answer, up to the topic and the address.
abbrev pub TakenBy : Listener → Listener → Type 0
TakenBy s t = (t.spot ≡ ready) × (t.visits ≡ s.visits) × (t.ros_ok ≡ s.ros_ok)

module _ ⦃fl : Floats⦄ where
  take_address-TakenBy : (s t : Listener) (l1 : Items) → take_address s l1 ≡ ok t → TakenBy s t
  unfolding take_address
  take_address-TakenBy s t l1 h = elim (Bool-cases (list_size l1 == 3)) [
    | inl e ↦
        let (ip, one, next) = >>=-eq-ok (value_s (list_at l1 (pos 1))) _ (rw e at h) in
        let (port, two, last) = >>=-eq-ok (value_i (list_at l1 (pos 2))) _ next in (cc, cc, cc)
    | inr e ↦
        let last : ok (record s { spot = ready }) ≡ ok t = rw e at h in
        let same : record s { spot = ready } ≡ t = cc in
        (ap (λ x. x.spot) (sym same), ap (λ x. x.visits) (sym same), ap (λ x. x.ros_ok) (sym same))
  ]

  pub take_answer-TakenBy :
      (s t : Listener) (resp : Option RpcResponse) → take_answer s resp ≡ ok t → TakenBy s t
  unfolding take_answer
  take_answer-TakenBy s t none h =
      let same : record s { spot = ready } ≡ t = cc in
      (ap (λ x. x.spot) (sym same), ap (λ x. x.visits) (sym same), ap (λ x. x.ros_ok) (sym same))
  take_answer-TakenBy s t (some resp) h = elim (Bool-cases resp.code) [
    | inl e ↦
        let (l1, got, next) = >>=-eq-ok (answer_address resp) _ (rw e at h) in
        take_address-TakenBy s t l1 next
    | inr e ↦
        let last : ok (record s { spot = ready }) ≡ ok t = rw e at h in
        let same : record s { spot = ready } ≡ t = cc in
        (ap (λ x. x.spot) (sym same), ap (λ x. x.visits) (sym same), ap (λ x. x.ros_ok) (sym same))
  ]

  pub taken-IsLeaving :
      (n m : ℕ) (s t : Listener) (resp : Option RpcResponse)
      → s.spot ≡ asked resp
      → TakenBy s t
      → IsLeaving n m s
      → IsLeaving (n - 1) m t
  taken-IsLeaving n m s t resp e (spot, visits, ros_ok) h =
      let few : 3 ≤ n = rw e at h.few in
      let bound : length s.visits + 1 ≤ m = rw e at h.bound in
      record {
        over = ros_ok ∙ h.over;
        few = rw spot (omega arith);
        bound = rw (spot, visits) bound;
      }

  pub test_uri-IsLeaving :
      (n m : ℕ) (s : Listener) (uri : Option CString)
      → s.spot ≡ uri_test
      → IsLeaving n m s
      → IsLeaving (n - 1) m (test_uri s uri)
  unfolding test_uri
  test_uri-IsLeaving n m s none e h = closer n m s uri_test looping e (omega arith) (omega arith) h
  test_uri-IsLeaving n m s (some uri) e h =
      closer n m s uri_test refresh_test e (omega arith) (omega arith) h
