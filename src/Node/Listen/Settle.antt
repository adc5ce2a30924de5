-- ===== src/Node/Listen/Settle.antt =====
-- A listener whose subscriber is active keeps to one publisher.
use stros.Prelude.{
  ℕ, zero, suc, ◌+◌, ◌≡◌, refl, ◌∙◌, sym, ap, inl, inr, Bool, true, false, List, [], ◌∷◌, ◌++◌,
  none, append-nil, append_assoc, Option, some, ok, ℤ, pos, Bool-cases, arith, replicate,
}
use stros.CString.{CString}
use stros.ItemList.{Floats}
use stros.Rpc.Xml.{XmlNode}
use stros.Request.Reply.{response_ok}
use stros.Api.Topic.{active}
use stros.Api.Handler.{at_address}
use stros.Api.Handler.Answers.{address_answer}
use stros.Api.Stream.{is_up}
use stros.Node.Listen.{
  Spot, looping, status_test, uri_test, refresh_test, asking, asked, ready, ended, Listener, Reach,
  Happening, told, halted, moved, test_uri, subscriber_listener, happen, happen_all, visit,
  is_refresh,
}
use stros.Node.Listen.Follow.{take_answer-address_answer}

-- The happenings of a time in which no other publisher is announced.
unfoldable pub is_quiet : List Happening → Bool
is_quiet [] = true
is_quiet (told uri port ∷ hs) = false
is_quiet (halted ∷ hs) = is_quiet hs
is_quiet (moved reach ∷ hs) = is_quiet hs

-- Neither asking nor with an answer.
abbrev pub is_calm : Spot → Bool
is_calm asking = false
is_calm (asked resp) = false
is_calm _ = true

module _ ⦃fl : Floats⦄ (parse_xml : CString → Option XmlNode) (xml host : CString) (port : ℕ) where
  -- A listener that has an address and nothing to ask.
  record IsSettled (s : Listener) : Type 0 where
    status : s.sub.status ≡ active
    ip : s.ip ≡ some host
    at : s.port ≡ pos (suc port)
    calm : is_calm s.spot ≡ true

  -- What a listener comes to from another: it is settled, and has visited its address so many times.
  record Keeps (s t : Listener) : Type 0 where
    still : IsSettled t
    times : ℕ
    same : t.visits ≡ s.visits ++ replicate times (host, pos (suc port))
    topic : t.sub ≡ s.sub

  unchanged : (s t : Listener) → IsSettled t → t.visits ≡ s.visits → t.sub ≡ s.sub → Keeps s t
  unfolding replicate
  unchanged s t h same topic = record {
    still = h;
    times = 0;
    same = same ∙ sym (append-nil s.visits);
    topic = topic;
  }

  stands :
      (s : Listener) (spot : Spot)
      → is_calm spot ≡ true
      → IsSettled s
      → Keeps s (record s { spot = spot })
  stands s spot calm h =
      unchanged s _ (record { status = h.status; ip = h.ip; at = h.at; calm = calm }) refl refl

  test_uri-Keeps : (s : Listener) (uri : Option CString) → IsSettled s → Keeps s (test_uri s uri)
  unfolding test_uri
  test_uri-Keeps s none h = stands s looping refl h
  test_uri-Keeps s (some uri) h = stands s refresh_test refl h

  moved-Keeps :
      (s : Listener) (reach : Reach) (spot : Spot)
      → is_calm spot ≡ true
      → IsSettled s
      → (t : Listener) × (subscriber_listener parse_xml xml reach s spot ≡ ok t) × Keeps s t
  unfolding subscriber_listener visit replicate is_up is_refresh
  moved-Keeps s reach looping calm h = elim (Bool-cases s.ros_ok) [
    | inl e ↦ (record s { spot = status_test }, rw e refl, stands s status_test refl h)
    | inr e ↦ (record s { spot = ended }, rw e refl, stands s ended refl h)
  ]
  moved-Keeps s reach status_test calm h =
      (record s { spot = uri_test }, rw h.status refl, stands s uri_test refl h)
  moved-Keeps s reach uri_test calm h = (test_uri s s.sub.uri, refl, test_uri-Keeps s s.sub.uri h)
  moved-Keeps s reach refresh_test calm h =
      (record s { spot = ready }, rw h.status refl, stands s ready refl h)
  moved-Keeps s reach asking calm h = absurd (let x : true ≡ false = sym calm in cc)
  moved-Keeps s reach (asked resp) calm h = absurd (let x : true ≡ false = sym calm in cc)
  moved-Keeps s reach ready calm h = (
    record s { spot = looping; visits = s.visits ++ (host, pos (suc port)) ∷ [] },
    rw (h.ip, h.at) refl,
    record {
      still = record { status = h.status; ip = h.ip; at = h.at; calm = refl };
      times = 1;
      same = refl;
      topic = refl;
    },
  )
  moved-Keeps s reach ended calm h = (s, refl, unchanged s s h refl refl)

  happen-Keeps :
      (s : Listener) (h : Happening)
      → is_quiet (h ∷ []) ≡ true
      → IsSettled s
      → (t : Listener) × (happen parse_xml xml s h ≡ ok t) × Keeps s t
  unfolding happen is_quiet
  happen-Keeps s (told uri q) quiet k = absurd (let x : false ≡ true = quiet in cc)
  happen-Keeps s halted quiet k = (
    record s { ros_ok = false },
    refl,
    unchanged s _ (record { status = k.status; ip = k.ip; at = k.at; calm = k.calm }) refl refl,
  )
  happen-Keeps s (moved reach) quiet k = moved-Keeps s reach s.spot k.calm k

  addresses : (n : ℕ) → List (CString × ℤ)
  addresses n = replicate n (host, pos (suc port))

  addresses_more : (n m : ℕ) → addresses n ++ addresses m ≡ addresses (n + m)
  unfolding replicate addresses
  addresses_more zero m = ap addresses (omega arith)
  addresses_more (suc n) m =
      let grown : suc (n + m) ≡ suc n + m = omega arith in
      ap (λ r. (host, pos (suc port)) ∷ r) (addresses_more n m) ∙ ap addresses grown

  Keeps-trans : (s t u : Listener) → Keeps s t → Keeps t u → Keeps s u
  unfolding addresses
  Keeps-trans s t u a b = record {
    still = b.still;
    times = a.times + b.times;
    same =
        b.same
        ∙ ap (λ v. v ++ addresses b.times) a.same
        ∙ append_assoc s.visits (addresses a.times) (addresses b.times)
        ∙ ap (λ v. s.visits ++ v) (addresses_more a.times b.times);
    topic = b.topic ∙ a.topic;
  }

  quiet_split :
      (h : Happening) (hs : List Happening)
      → is_quiet (h ∷ hs) ≡ true
      → (is_quiet (h ∷ []) ≡ true) × (is_quiet hs ≡ true)
  unfolding is_quiet
  quiet_split (told uri q) hs quiet = absurd (let x : false ≡ true = quiet in cc)
  quiet_split halted hs quiet = (refl, quiet)
  quiet_split (moved reach) hs quiet = (refl, quiet)

  happen_all-Keeps :
      (s : Listener) (hs : List Happening)
      → is_quiet hs ≡ true
      → IsSettled s
      → (t : Listener) × (happen_all parse_xml xml s hs ≡ ok t) × Keeps s t
  unfolding happen_all is_quiet
  happen_all-Keeps s [] quiet k = (s, refl, unchanged s s k refl refl)
  happen_all-Keeps s (h ∷ hs) quiet k =
      let (here, behind) = quiet_split h hs quiet in
      let (t, one, kept) = happen-Keeps s h here k in
      let (u, rest, more) = happen_all-Keeps t hs behind kept.still in
      (u, rw one rest, Keeps-trans s t u kept more)

  -- A listener that has the answer of its publisher keeps to this publisher: it comes through
  -- every further run without fault, is active, and all its calls of `tcp_ros_request` go to the
  -- address of the answer, until the next `publisherUpdate`. This is so also where a
  -- `publisherUpdate` with another address arrives after the answer and before the thread marks
  -- the topic as active: the mark overwrites the wish to connect again.
  pub happen_all-told :
      (s : Listener) (n : ℕ) (uri : Option CString) (q : ℤ) (reach : Reach) (hs : List Happening)
      → s.spot ≡ asked (some (response_ok n (address_answer host (pos (suc port)))))
      → is_quiet hs ≡ true
      → (t : Listener) × (k : ℕ) × (happen_all parse_xml xml s (told uri q ∷ moved reach ∷ hs)
          ≡ ok t)
        × (t.visits ≡ s.visits ++ replicate k (host, pos (suc port)))
        × (t.sub ≡ record (at_address s.sub uri q) { status = active })
  happen_all-told s n uri q reach hs has quiet =
      let marked : Listener = record s {
        sub = record (at_address s.sub uri q) { status = active };
        spot = ready;
        ip = some host;
        port = pos (suc port);
      } in
      let (t, rest, kept) =
        happen_all-Keeps marked hs quiet
          (record { status = refl; ip = refl; at = refl; calm = refl }) in
      let taken =
        take_answer-address_answer (record s { sub = at_address s.sub uri q }) host port n in
      (
        t,
        kept.times,
        unfold happen_all happen subscriber_listener in rw (has, taken) rest,
        kept.same,
        kept.topic,
      )
