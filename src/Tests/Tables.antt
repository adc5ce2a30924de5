-- ===== src/Tests/Tables.antt =====
-- Runs on dictionaries.
use stros.Prelude.{
  ℕ, refl, false, List, [], ◌∷◌, ◌≡◌, ◌≤◌, true, ◌&&◌, ◌||◌, Option, none, some, is_some,
  if◌then◌else◌,
}
use stros.CString.{CString, codes, equ}
use stros.Dictionary.{Buckets, dlookup, dvalue, dict, dput, find, associations}
use stros.Dictionary.Chain.{occurs}
use stros.Dictionary.Lookup.{dvalue-dput}
use stros.Dictionary.Validity.{IsValid, empty_table, dict-IsValid, PointsToValid, dput-IsValid}
use stros.Dictionary.History.{Call, put, remove, history, map_history, history-map_history}
use stros.Dictionary.Iteration.{find-associations}

abbrev chatter : CString
chatter = codes "/chatter"

abbrev empty : Buckets ℕ
empty = empty_table

empty-IsValid : IsValid empty
empty-IsValid = dict-IsValid.1

-- The table that `dput` makes of the empty one.
unfoldable one : Buckets ℕ
one = elim (dput true 0 (some empty) chatter 7).0 [ none ↦ empty | some dic ↦ dic ]

one-IsValid : IsValid one
unfolding one
one-IsValid =
    of_pointer (dput true 0 (some empty) chatter 7).0
      (dput-IsValid empty chatter true 0 7 empty-IsValid)
  where
    of_pointer :
        (p : Option (Buckets ℕ))
        → PointsToValid p
        → IsValid (elim p [ none ↦ empty | some dic ↦ dic ])
    of_pointer none h = absurd h
    of_pointer (some dic) h = h

dvalue-dput_example :
    let r = dput true 0 (some one) chatter 8 in
    (r.1 ≡ (true || is_some (dlookup (some one) chatter)))
    × (dvalue r.0 chatter
        ≡ (if r.1 && equ chatter chatter then some 8 else dvalue (some one) chatter))
dvalue-dput_example = dvalue-dput one one-IsValid.wide chatter chatter true 0 8

-- A topic is put twice, a second one finds no memory, and the first is removed twice.
abbrev calls : List (Call ℕ)
calls =
    put true 0 chatter 7
    ∷ put false 0 chatter 8
    ∷ put false 0 (codes "/rosout") 9
    ∷ remove chatter
    ∷ remove chatter
    ∷ []

history-map_history_example :
    ((history dict calls).1 ≡ (map_history (λ key. none) calls).1)
    × ((q : CString) → dvalue (history dict calls).0 q ≡ (map_history (λ key. none) calls).0 q)
history-map_history_example = history-map_history calls

map_history_runs : (map_history (λ key. none) calls).1 ≡ true ∷ true ∷ false ∷ true ∷ false ∷ []
unfolding map_history equ
map_history_runs = refl

find-associations_example :
    (find chatter (associations one) ≡ dlookup (some one) chatter)
    × (occurs chatter (associations one) ≤ 1)
find-associations_example = find-associations chatter one one-IsValid
