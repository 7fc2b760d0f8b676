-- ===== src/Udm/Mappings/Leaves.antt =====
-- What flattening leaves.
use tengen.Prelude.{
  String, Bool, true, false, ◌≡◌, refl, [], ◌∷◌, Dict, insert, All, All-append, arith,
}
use tengen.Text.{cat}
use tengen.Value.{
  Value, Fields, Items, str, obj, arr, bool, int, float, null, field, end, item, no_items,
}
use tengen.Udm.Mappings.{
  flatten, flatten_fields, flatten_items, merge, set_default, sub_path, leaf_at,
}

abbrev pub is_container : Value → Bool
is_container (obj _) = true
is_container (arr _) = true
is_container _ = false

-- An entry whose value is no dictionary and no list.
abbrev pub IsLeaf : String × Value → Type 0
IsLeaf (path, v) = is_container v ≡ false

insert-IsLeaf :
    (k : String) (v : Value) (d : Dict Value)
    → is_container v ≡ false
    → All IsLeaf d
    → All IsLeaf (insert k v d)
unfolding insert
insert-IsLeaf k v [] l h = (l, tt)
insert-IsLeaf k v ((j, w) ∷ d) l (p, h) = ground (arith, insert-IsLeaf k v d l h)

merge-IsLeaf : (out d : Dict Value) → All IsLeaf out → All IsLeaf d → All IsLeaf (merge out d)
unfolding merge
merge-IsLeaf out [] h k = h
merge-IsLeaf out ((k, v) ∷ d) h (l, m) =
    merge-IsLeaf (insert k v out) d (insert-IsLeaf k v out l h) m

set_default-IsLeaf :
    (k : String) (v : Value) (out : Dict Value)
    → is_container v ≡ false
    → All IsLeaf out
    → All IsLeaf (set_default k v out)
unfolding set_default
set_default-IsLeaf k v out l h =
    let longer = All-append IsLeaf out ((k, v) ∷ []) h (l, tt) in ground arith

leaf_at-IsLeaf :
    (prefix : String) (v : Value) → is_container v ≡ false → All IsLeaf (leaf_at prefix v)
leaf_at-IsLeaf prefix v l = ground arith

mutual
  unfolding flatten flatten_fields flatten_items

  leaves : (v : Value) (prefix : String) → All IsLeaf (flatten v prefix)
  leaves (obj fs) prefix = leaves_of_fields fs prefix [] tt
  leaves (arr vs) prefix = leaves_of_items vs (cat prefix "[]") [] tt
  leaves (str s) prefix = leaf_at-IsLeaf prefix (str s) refl
  leaves (bool b) prefix = leaf_at-IsLeaf prefix (bool b) refl
  leaves (int z) prefix = leaf_at-IsLeaf prefix (int z) refl
  leaves (float z k) prefix = leaf_at-IsLeaf prefix (float z k) refl
  leaves null prefix = leaf_at-IsLeaf prefix null refl

  leaves_of_fields :
      (fs : Fields) (prefix : String) (out : Dict Value)
      → All IsLeaf out
      → All IsLeaf (flatten_fields fs prefix out)
  leaves_of_fields end prefix out h = h
  leaves_of_fields (field k v fs) prefix out h =
      leaves_of_fields fs prefix _ (merge-IsLeaf out _ h (leaves v (sub_path prefix k)))

  leaves_of_items :
      (vs : Items) (path : String) (out : Dict Value)
      → All IsLeaf out
      → All IsLeaf (flatten_items vs path out)
  leaves_of_items no_items path out h = h
  leaves_of_items (item (obj fs) vs) path out h =
      leaves_of_items vs path _ (merge-IsLeaf out _ h (leaves_of_fields fs path [] tt))
  leaves_of_items (item (arr ws) vs) path out h =
      leaves_of_items vs path _ (merge-IsLeaf out _ h (leaves_of_items ws (cat path "[]") [] tt))
  leaves_of_items (item (str s) vs) path out h =
      leaves_of_items vs path _ (set_default-IsLeaf path (str s) out refl h)
  leaves_of_items (item (bool b) vs) path out h =
      leaves_of_items vs path _ (set_default-IsLeaf path (bool b) out refl h)
  leaves_of_items (item (int z) vs) path out h =
      leaves_of_items vs path _ (set_default-IsLeaf path (int z) out refl h)
  leaves_of_items (item (float z k) vs) path out h =
      leaves_of_items vs path _ (set_default-IsLeaf path (float z k) out refl h)
  leaves_of_items (item null vs) path out h =
      leaves_of_items vs path _ (set_default-IsLeaf path null out refl h)

-- No value that flattening leaves is a dictionary or a list, however deep the payload nests them.
pub flatten-IsLeaf : (v : Value) (prefix : String) → All IsLeaf (flatten v prefix)
flatten-IsLeaf v prefix = leaves v prefix
