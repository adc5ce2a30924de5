-- ===== src/Api/Header/Check.antt =====
-- The checks of `verify_ros_header` on the fields it found.
use stros.Prelude.{
  ◌≡◌, ◌≢◌, refl, ◌⊎◌, inl, inr, false, not, ◌&&◌, Option, none, some, Bool-cases, Run, ok,
  >>=-eq-ok, ℕ, ap, sym, ◌∙◌, arith,
}
use stros.CString.{CString, codes, equ}
use stros.CString.Compare.{eq_of_equ}
use stros.ItemList.{Floats}
use stros.Api.Types.{md5sum_of}
use stros.Api.Topic.{Topic}
use stros.Api.Header.{Found, nothing_found, fields_loop, check_found, verify_ros_header}

-- The fields of a header fit a subscriber.
pub record Fits (sub : Topic) (f : Found) (msgtype md5sum : CString) : Type 0 where
  pub its_topic : f.topic ≡ some sub.topic
  pub has_type : f.msgtype ≡ some msgtype
  pub has_sum : f.md5sum ≡ some md5sum
  pub its_type : (msgtype ≡ sub.type) ⊎ (msgtype ≡ codes "*")
  pub its_sum : (md5sum ≡ md5sum_of msgtype) ⊎ (md5sum ≡ codes "*")

one_of : (s t u : CString) → (not (equ s t) && not (equ s u)) ≡ false → (s ≡ t) ⊎ (s ≡ u)
one_of s t u h = elim (Bool-cases (equ s t)) [
  | inl e ↦ inl (eq_of_equ s t e)
  | inr e ↦ inr (eq_of_equ s u (ground arith))
]

module _ (sub : Topic) (msgtype md5sum topic : CString) where
  accepted_texts :
      {f : Found}
      → f ≡ record { msgtype = some msgtype; md5sum = some md5sum; topic = some topic }
      → check_found sub
          (record { msgtype = some msgtype; md5sum = some md5sum; topic = some topic })
        ≢ 0
      → Fits sub f msgtype md5sum
  unfolding check_found
  accepted_texts same h = elim (Bool-cases (not (equ topic sub.topic))) [
    | inl t ↦ absurd (h (rw t refl))
    | inr t ↦ elim (Bool-cases (not (equ msgtype sub.type) && not (equ msgtype (codes "*")))) [
      | inl m ↦ absurd (h (rw (t, m) refl))
      | inr m ↦
          elim (Bool-cases (not (equ md5sum (md5sum_of msgtype)) && not (equ md5sum (codes "*")))) [
            | inl s ↦ absurd (h (rw (t, m, s) refl))
            | inr s ↦ record {
              its_topic = rw (same, eq_of_equ topic sub.topic (ground arith)) refl;
              has_type = rw same refl;
              has_sum = rw same refl;
              its_type = one_of msgtype sub.type (codes "*") m;
              its_sum = one_of md5sum (md5sum_of msgtype) (codes "*") s;
            }
          ]
    ]
  ]

accepted_fields :
    (sub : Topic) (f : Found) (m s t : Option CString)
    → f ≡ record { msgtype = m; md5sum = s; topic = t }
    → check_found sub (record { msgtype = m; md5sum = s; topic = t }) ≢ 0
    → (msgtype : CString) × (md5sum : CString) × Fits sub f msgtype md5sum
unfolding check_found
accepted_fields sub f none s t same h = absurd (h refl)
accepted_fields sub f (some m) none t same h = absurd (h refl)
accepted_fields sub f (some m) (some s) none same h = absurd (h refl)
accepted_fields sub f (some m) (some s) (some t) same h = (m, s, accepted_texts sub m s t same h)

check_found-Fits :
    (sub : Topic) (f : Found)
    → check_found sub f ≢ 0
    → (msgtype : CString) × (md5sum : CString) × Fits sub f msgtype md5sum
check_found-Fits sub f h = accepted_fields sub f f.msgtype f.md5sum f.topic refl h

module _ ⦃fl : Floats⦄ where
  -- A header is accepted only when its fields fit the subscriber: where `verify_ros_header` gives
  -- a result other than 0, the loop found a topic that is the subscriber's, a type that is its own
  -- or `*`, and a sum that is that of the found type or `*`.
  pub verify_ros_header-Fits :
      (sub : Topic) (header : CString) (hsize n : ℕ)
      → verify_ros_header sub header hsize ≡ ok n
      → n ≢ 0
      → (f : Found) × (fields_loop hsize nothing_found header hsize ≡ ok f)
        × ((msgtype : CString) × (md5sum : CString) × Fits sub f msgtype md5sum)
  unfolding verify_ros_header
  verify_ros_header-Fits sub header hsize n h ne =
      let (f, ran, last) =
        >>=-eq-ok (fields_loop hsize nothing_found header hsize) (λ f. ok (check_found sub f)) h in
      (f, ran, check_found-Fits sub f (λ e. ne (result f last e)))
    where
      value : Run ℕ → ℕ
      value (ok a) = a
      value Run.fault = 0

      result : (f : Found) → ok (check_found sub f) ≡ ok n → check_found sub f ≡ 0 → n ≡ 0
      result f last e = sym (ap value last) ∙ e
