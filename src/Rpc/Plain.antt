-- ===== src/Rpc/Plain.antt =====
-- The values that survive the way through XML, and what appending them one by one makes.
use stros.Prelude.{◌≡◌, ◌≢◌, refl, ◌∙◌, sym, ap, ◌⊎◌, true, false, []}
use stros.CString.{codes}
use stros.Utils.Hash.{hash}
use stros.Utils.Match.{match_float}
use stros.ItemList.{
  Floats, Value, Items, nil, int, i4, bool, double, string, date, base64, array, null, node, is_nil,
  list_item, list_init, list_put, link_last,
}
use stros.Rpc.Parse.{RpcType, tag_type}

-- Each tag that `item_to_xml` writes has the type that it is meant for.
pub tag_types :
    (tag_type (codes "data") ≡ RpcType.unsupported)
    × (tag_type (codes "base64") ≡ RpcType.base64)
    × (tag_type (codes "boolean") ≡ RpcType.bool)
    × (tag_type (codes "double") ≡ RpcType.double)
    × (tag_type (codes "dateTime.iso8601") ≡ RpcType.date)
    × (tag_type (codes "int") ≡ RpcType.int)
    × (tag_type (codes "string") ≡ RpcType.string)
    × (tag_type (codes "array") ≡ RpcType.array)
    × (tag_type (codes "nil") ≡ RpcType.unsupported)
unfolding tag_type hash
tag_types = (refl, refl, refl, refl, refl, refl, refl, refl, refl)

module _ ⦃fl : Floats⦄ where
  -- The values that arrive as they were sent: no `nil` and no `i4`, no empty text, a `double` whose
  -- print is a decimal fraction that reads back, and arrays that are built by `list_put`.
  unfoldable mutual
    pub IsPlain : Value → Type 0
    IsPlain nil = ⊥
    IsPlain (i4 z) = ⊥
    IsPlain (int z) = Unit
    IsPlain (bool z) = Unit
    IsPlain (double d) = (match_float (fl.format_lf d) ≡ true) × (fl.atof (fl.format_lf d) ≡ d)
    IsPlain (string s) = s ≢ []
    IsPlain (date s) = s ≢ []
    IsPlain (base64 s) = s ≢ []
    IsPlain (array a) = (a ≡ list_init) ⊎ (IsPlainItems a × (a ≢ null))

    pub IsPlainItems : Items → Type 0
    IsPlainItems null = Unit
    IsPlainItems (node v l) = IsPlain v × IsPlainItems l

  -- Appending the values of a chain one by one.
  unfoldable pub puts : Items → Items → Items
  puts l null = l
  puts l (node v r) = puts (list_put l (list_item v)) r

  pub IsPlain-not_nil : (v : Value) → IsPlain v → is_nil v ≡ false
  unfolding IsPlain
  IsPlain-not_nil nil h = absurd h
  IsPlain-not_nil (int z) h = refl
  IsPlain-not_nil _ h = refl

  link_last-link_last :
      (l : Items) (v : Value) (r : Items)
      → link_last (link_last l (list_item v)) r ≡ link_last l (node v r)
  unfolding link_last
  link_last-link_last null v r = refl
  link_last-link_last (node w l) v r = ap (node w) (link_last-link_last l v r)

  link_last-null : (l : Items) → link_last l null ≡ l
  unfolding link_last
  link_last-null null = refl
  link_last-null (node w l) = ap (node w) (link_last-null l)

  puts-link_last :
      (w : Value) (l r : Items) → is_nil w ≡ false → puts (node w l) r ≡ link_last (node w l) r
  unfolding puts list_put
  puts-link_last w l null h = sym (link_last-null (node w l))
  puts-link_last w l (node v r) h =
      rw h (puts-link_last w (link_last l (list_item v)) r h ∙ link_last-link_last (node w l) v r)

  pub puts_fresh : (a : Items) → IsPlainItems a → a ≢ null → puts list_init a ≡ a
  unfolding puts IsPlain list_put list_init
  puts_fresh null h ne = absurd (ne refl)
  puts_fresh (node v r) h ne = puts-link_last v null r (IsPlain-not_nil v h.0)
