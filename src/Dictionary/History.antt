-- ===== src/Dictionary/History.antt =====
-- Histories of calls on a dictionary, and on a map from keys to values.
use mathlib.Core.Path.{fun_ext, subst}
use stros.Prelude.{
  ◌≡◌, refl, sym, ◌∙◌, ap, Bool, ◌&&◌, ◌||◌, List, [], ◌∷◌, Option, none, some, is_some,
  if◌then◌else◌,
}
use stros.CString.{CString, equ}
use stros.Dictionary.{Association, Buckets, home, dict, dlookup, value_of, dvalue, dput, dremove}
use stros.Dictionary.Lookup.{dvalue_lem, dvalue-dput, dvalue-dremove}
use stros.Dictionary.Validity.{
  IsValid, empty_table, dict-IsValid, PointsToValid, dput-IsValid, dremove-IsValid,
}

-- A call, with whether there is memory and what `malloc` left in the value of a new node.
pub data Call {ℓ} (V : Type ℓ) : Type ℓ where
  put : Bool → V → CString → V → Call V
  remove : CString → Call V

-- A map from keys to values.
abbrev pub Map {ℓ} : Type ℓ → Type ℓ
Map V = CString → Option V

is_some-value_of {ℓ} :
    {V : Type ℓ} (np : Option (Association V)) → is_some np ≡ is_some (value_of np)
unfolding value_of
is_some-value_of none = refl
is_some-value_of (some np) = refl

module _ {ℓ} {V : Type ℓ} where
  abbrev pub perform : Option (Buckets V) → Call V → Option (Buckets V) × Bool
  perform dic (put alloc junk key v) = dput alloc junk dic key v
  perform dic (remove key) = dremove dic key

  -- The table after the calls, and what they returned.
  unfoldable pub history : Option (Buckets V) → List (Call V) → Option (Buckets V) × List Bool
  history dic [] = (dic, [])
  history dic (call ∷ calls) =
      let (dic', result) = perform dic call in
      let (last, results) = history dic' calls in (last, result ∷ results)

  -- The same calls on a map: a key that is new is bound if there is memory.
  abbrev pub perform_map : Map V → Call V → Map V × Bool
  perform_map m (put alloc junk key v) =
      let result = alloc || is_some (m key) in
      (λ q. if result && equ q key then some v else m q, result)
  perform_map m (remove key) = (λ q. if equ q key then none else m q, is_some (m key))

  unfoldable pub map_history : Map V → List (Call V) → Map V × List Bool
  map_history m [] = (m, [])
  map_history m (call ∷ calls) =
      let (m', result) = perform_map m call in
      let (last, results) = map_history m' calls in (last, result ∷ results)

  is_some-dvalue :
      (dic : Buckets V) (q : CString)
      → is_some (dlookup (some dic) q) ≡ is_some (dvalue (some dic) q)
  unfolding value_of
  is_some-dvalue dic q = rw (dvalue_lem (some dic) q) (is_some-value_of (dlookup (some dic) q))

  pub PointsToValid-some :
      (p : Option (Buckets V)) → PointsToValid p → (dic : Buckets V) × (p ≡ some dic) × IsValid dic
  PointsToValid-some none h = absurd h
  PointsToValid-some (some dic) h = (dic, refl, h)

  perform-perform_map :
      (dic : Buckets V) (call : Call V)
      → IsValid dic
      → let r = perform (some dic) call in
        let a = perform_map (dvalue (some dic)) call in
        PointsToValid r.0 × (r.1 ≡ a.1) × ((q : CString) → dvalue r.0 q ≡ a.0 q)
  perform-perform_map dic (put alloc junk key v) valid =
      let bound : (alloc || is_some (dlookup (some dic) key))
          ≡ (alloc || is_some (dvalue (some dic) key)) =
        ap (λ b. alloc || b) (is_some-dvalue dic key) in
      let result = (dvalue-dput dic valid.wide key key alloc junk v).0 ∙ bound in
      (
        dput-IsValid dic key alloc junk v valid,
        result,
        λ q.
            (dvalue-dput dic valid.wide key q alloc junk v).1
            ∙ ap (λ b. if b && equ q key then some v else dvalue (some dic) q) result,
      )
  perform-perform_map dic (remove key) valid = (
    dremove-IsValid dic key valid,
    (dvalue-dremove dic key key valid.wide (valid.once key (home key))).0 ∙ is_some-dvalue dic key,
    λ q. (dvalue-dremove dic key q valid.wide (valid.once q (home q))).1,
  )

  -- The calls on a table return what they return on a map, and leave what they leave there.
  abbrev pub Agrees : Option (Buckets V) → Map V → List (Call V) → Type ℓ
  Agrees dic m calls =
      let r = history dic calls in
      let a = map_history m calls in (r.1 ≡ a.1) × ((q : CString) → dvalue r.0 q ≡ a.0 q)

  Agrees-cons :
      (dic : Option (Buckets V)) (m : Map V) (call : Call V) (calls : List (Call V))
      → (perform dic call).1 ≡ (perform_map m call).1
      → Agrees (perform dic call).0 (perform_map m call).0 calls
      → Agrees dic m (call ∷ calls)
  unfolding history map_history
  Agrees-cons dic m call calls result (results, last) = (cc, last)

  history_from :
      (dic : Buckets V) (calls : List (Call V))
      → IsValid dic
      → Agrees (some dic) (dvalue (some dic)) calls
  history_from dic [] valid = unfold history map_history in (refl, λ q. refl)
  history_from dic (call ∷ calls) valid =
      let (points, result, values) = perform-perform_map dic call valid in
      let (dic', at, valid') = PointsToValid-some (perform (some dic) call).0 points in
      let same : dvalue (some dic') ≡ (perform_map (dvalue (some dic)) call).0 =
        fun_ext (λ q. ap (λ p. dvalue p q) (sym at) ∙ values q) in
      Agrees-cons (some dic) (dvalue (some dic)) call calls result
        (rw (at, ← same) (history_from dic' calls valid'))

  -- A dictionary is a finite map to its users: after any sequence of `dput` and `dremove` on the
  -- table that `dict` makes, each call has returned what it returns on a map from keys to values,
  -- and `dvalue` reads at every key what this map has there. On the map a key that is new is bound
  -- only if there is memory, one that is there is bound again in any case, and one that is removed
  -- is unbound.
  pub history-map_history :
      (calls : List (Call V))
      → let r = history dict calls in
        let a = map_history (λ key. none) calls in
        (r.1 ≡ a.1) × ((q : CString) → dvalue r.0 q ≡ a.0 q)
  history-map_history calls =
      let (made, valid, empty) = dict-IsValid {V = V} in
      let start : Agrees (some empty_table) (dvalue (some empty_table)) calls =
        history_from empty_table calls valid in
      subst (λ p. Agrees p (λ key. none) calls) (sym made)
        (subst (λ m. Agrees (some empty_table) m calls) (fun_ext empty) start)
