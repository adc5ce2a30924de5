-- ===== src/Node/Listen/Halt.antt =====
-- How the thread of a subscriber ends.
use stros.Prelude.{
  Bool, ℕ, suc, ◌+◌, ◌≤◌, ◌≡◌, inl, inr, true, false, List, [], ◌∷◌, arith, Option, some, none, ℤ,
  length, length-append, Bool-cases,
}
use stros.CString.{CString}
use stros.ItemList.{Floats}
use stros.Rpc.Xml.{XmlNode}
use stros.Node.Listen.{
  Spot, looping, ready, ended, Listener, Happening, told, halted, moved, visit, above_zero,
}

-- The accesses of the thread in a run.
unfoldable pub accesses : List Happening → ℕ
accesses [] = 0
accesses (moved reach ∷ hs) = suc (accesses hs)
accesses (h ∷ hs) = accesses hs

-- Before the loop's test, at the test of `ip` and `port`, or returned.
abbrev pub is_outside : Spot → Bool
is_outside looping = true
is_outside ready = true
is_outside ended = true
is_outside _ = false

-- The accesses that a thread has left once the node is stopped, and the visits.
abbrev left : Spot → ℕ
left looping = 1
left ready = 2
left _ = 0

abbrev due : Spot → ℕ
due ready = 1
due _ = 0

pub length-visit :
    (ip : Option CString) (port : ℤ) (visits : List (CString × ℤ))
    → length (visit ip port visits) ≤ suc (length visits)
unfolding visit
length-visit none port visits = omega arith
length-visit (some ip) port visits = elim (Bool-cases (above_zero port)) [
  | inl e ↦ rw e (omega (arith, length-append visits ((ip, port) ∷ [])))
  | inr e ↦ rw e (omega arith)
]

module _ ⦃fl : Floats⦄ (parse_xml : CString → Option XmlNode) (xml : CString) where
  -- A stopped node whose thread is outside of the search for an address, with so many accesses and visits left.
  record IsHalting (n m : ℕ) (s : Listener) : Type 0 where
    over : s.ros_ok ≡ false
    calm : is_outside s.spot ≡ true
    few : left s.spot ≤ n
    bound : length s.visits + due s.spot ≤ m

  pub accesses-cons :
      (h : Happening) (hs : List Happening) → accesses (h ∷ hs) ≡ accesses (h ∷ []) + accesses hs
  unfolding accesses
  accesses-cons (told uri q) hs = omega arith
  accesses-cons halted hs = omega arith
  accesses-cons (moved reach) hs = omega arith
