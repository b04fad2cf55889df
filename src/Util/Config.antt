-- ===== src/Util/Config.antt =====
-- `BoostPtree` and its formats, of tornado/util/boost_ptree.h, ini.h, json.h and xml.h.
-- `boost::property_tree` is a parameter.
use simplesvr.Prelude.{
  ◌≡◌, refl, ◌∙◌, ap, sym, Bool, true, false, List, [], ◌∷◌, ◌++◌, append-nil, append_assoc, Option,
  some, none, Bytes, codes, Option-cases, inl, inr,
}
use simplesvr.Prelude.Int.{ℤ, pos, negsuc}

-- A tree, as far as the code looks at it: the tree at a path, the children with their names, and the value as
-- text or as a `T`, which may not convert.
pub record PropertyTrees {ℓ} (T : Type ℓ) : Type (1 ⊔ ℓ) where
  pub Tree : Type 0
  pub at_path : Bytes → Tree → Option Tree
  pub children : Tree → List (Bytes × Tree)
  pub text : Tree → Bytes
  pub value : Tree → Option T

module _ {ℓ} {T : Type ℓ} (t : PropertyTrees T) where
  open t use {Tree, at_path, children, text, value}

  -- `paserFromFile` of `Ini`, by what the reader of the format makes of the input. A reader that
  -- throws leaves the tree as it was.
  unfoldable pub parse_tree : Option Tree → Tree → ℤ × Tree
  parse_tree none pt = (negsuc 0, pt)
  parse_tree (some read) pt = (pos 0, read)

  -- `paserFromFile` and `paserFromString` of `Json` and of `Xml` do the same with another reader.
  abbrev pub parse_json : Option Tree → Tree → ℤ × Tree
  parse_json = parse_tree

  abbrev pub parse_xml : Option Tree → Tree → ℤ × Tree
  parse_xml = parse_tree

  -- `get`: the default also stands for a value that does not convert.
  unfoldable pub get : Bytes → T → Tree → T
  get item_name default_val pt = elim (at_path item_name pt) [
    | none ↦ default_val
    | some c ↦ elim (value c) [ none ↦ default_val | some v ↦ v ]
  ]

  -- The loop of `getVec`: whether it ends, and is not left by an exception, and the caller's vector.
  unfoldable pub push_values : List (Bytes × Tree) → List T → Bool × List T
  push_values [] items = (true, items)
  push_values ((name, c) ∷ cs) items = elim (value c) [
    | none ↦ (false, items)
    | some v ↦ push_values cs (items ++ (v ∷ []))
  ]

  -- `getVec`.
  unfoldable pub get_vec : Bytes → List T → Tree → Bool × List T
  get_vec item_name items pt = elim (at_path item_name pt) [
    | none ↦ (true, items)
    | some c ↦ push_values (children c) items
  ]

  -- `Ini::print`.
  unfoldable pub print_values : List (Bytes × Tree) → Bytes
  print_values [] = []
  print_values ((name, c) ∷ cs) = name ++ codes "=" ++ text c ++ codes "\n" ++ print_values cs

  unfoldable pub print_sections : List (Bytes × Tree) → Bytes
  print_sections [] = []
  print_sections ((name, c) ∷ cs) =
      codes "[" ++ name ++ codes "]\n" ++ print_values (children c) ++ print_sections cs

  unfoldable pub print_ini : Tree → Bytes
  print_ini pt = print_sections (children pt)

  -- The values of the children up to the first that does not convert, and whether none is left.
  abbrev pub values_of : List (Bytes × Tree) → Bool × List T
  values_of [] = (true, [])
  values_of ((name, c) ∷ cs) = elim (value c) [
    | none ↦ (false, [])
    | some v ↦ let (whole, vs) = values_of cs in (whole, v ∷ vs)
  ]

  push_values-values_of :
      (cs : List (Bytes × Tree)) (items : List T)
      → push_values cs items ≡ ((values_of cs).0, items ++ (values_of cs).1)
  unfolding push_values
  push_values-values_of [] items = ap (λ l. (true, l)) (sym (append-nil items))
  push_values-values_of ((name, c) ∷ cs) items = elim (Option-cases (value c)) [
    | inl e ↦ rw (e, push_values, values_of) (ap (λ l. (false, l)) (sym (append-nil items)))
    | inr (v, e) ↦
        rw (e, push_values, values_of)
          (push_values-values_of cs (items ++ (v ∷ []))
            ∙ ap (λ l. ((values_of cs).0, l)) (append_assoc items (v ∷ []) (values_of cs).1))
  ]

  -- `getVec` puts the values of the children behind those that the caller has, in order, up to the first
  -- that does not convert, which throws; without children under the name it changes nothing.
  pub get_vec_lem :
      (item_name : Bytes) (items : List T) (pt : Tree)
      → get_vec item_name items pt ≡ elim (at_path item_name pt) [
        | none ↦ (true, items)
        | some c ↦ ((values_of (children c)).0, items ++ (values_of (children c)).1)
      ]
  unfolding get_vec
  get_vec_lem item_name items pt = elim (Option-cases (at_path item_name pt)) [
    | inl e ↦ rw (e, get_vec) refl
    | inr (c, e) ↦ rw (e, get_vec) (push_values-values_of (children c) items)
  ]
