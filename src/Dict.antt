-- ===== src/Dict.antt =====
-- A Go map with string keys, as an association list. A `range` loop over a map reads the entries
-- in the order of the list; the theorems hold for every list, so for every order that Go picks.
use mathlib.Core.Path.{subst₂}
use singal.Common.{
  inl, inr, Bool-cases, suc, ◌≡◌, refl, ◌≢◌, String, Option, none, some, List, [], ◌∷◌, arith,
  str_eq, eq_iff, if◌then◌else◌, length,
}

abbrev pub Dict {ℓ} : Type ℓ → Type ℓ
Dict V = List (String × V)

module _ {ℓ} {V : Type ℓ} where
  -- `v, ok := m[key]`
  unfoldable pub lookup : String → Dict V → Option V
  lookup key [] = none
  lookup key ((other, value) ∷ m) = if str_eq other key then some value else lookup key m

  -- `m[key] = value`: an entry of the key is overwritten in its place.
  unfoldable pub insert : String → V → Dict V → Dict V
  insert key value [] = (key, value) ∷ []
  insert key value ((other, old) ∷ m) =
      if str_eq other key then (key, value) ∷ m else (other, old) ∷ insert key value m

  -- `delete(m, key)`
  unfoldable pub delete : String → Dict V → Dict V
  delete key [] = []
  delete key ((other, value) ∷ m) =
      let rest = delete key m in if str_eq other key then rest else (other, value) ∷ rest

  pub lookup-insert :
      (key asked : String) (value : V) (m : Dict V)
      → lookup asked (insert key value m)
        ≡ (if str_eq key asked then some value else lookup asked m)
  unfolding lookup insert
  lookup-insert key asked value [] = refl
  lookup-insert key asked value ((other, old) ∷ rest) = ground (
    arith,
    lookup-insert key asked value rest,
    eq_iff other asked,
    eq_iff other key,
    eq_iff key asked,
  )

  pub lookup-delete :
      (k j : String) (m : Dict V)
      → lookup j (delete k m) ≡ (if str_eq k j then none else lookup j m)
  unfolding lookup delete
  lookup-delete k j [] = ground arith
  lookup-delete k j ((i, w) ∷ m) =
      ground (arith, eq_iff k j, eq_iff i k, eq_iff i j, lookup-delete k j m)

  pub lookup-insert_self : (k : String) (v : V) (m : Dict V) → lookup k (insert k v m) ≡ some v
  lookup-insert_self k v m = ground (arith, lookup-insert k k v m, eq_iff k k)

  pub lookup-insert_ne :
      (k j : String) (v : V) (m : Dict V) → k ≢ j → lookup j (insert k v m) ≡ lookup j m
  lookup-insert_ne k j v m h = ground (arith, lookup-insert k j v m, eq_iff k j)

  pub lookup-delete_self : (k : String) (m : Dict V) → lookup k (delete k m) ≡ none
  lookup-delete_self k m = ground (arith, lookup-delete k k m, eq_iff k k)

  pub lookup-delete_ne : (k j : String) (m : Dict V) → k ≢ j → lookup j (delete k m) ≡ lookup j m
  lookup-delete_ne k j m h = ground (arith, lookup-delete k j m, eq_iff k j)

  -- Each key once, as in a map.
  abbrev pub IsMap : Dict V → Type ℓ
  IsMap [] = Unit
  IsMap ((j, v) ∷ m) = (lookup j m ≡ none) × IsMap m

  pub insert-IsMap : (k : String) (v : V) (m : Dict V) → IsMap m → IsMap (insert k v m)
  unfolding lookup insert
  insert-IsMap k v [] h = (refl, tt)
  insert-IsMap k v ((j, w) ∷ m) h =
      ground (arith, insert-IsMap k v m h.1, lookup-insert k j v m, eq_iff k j, eq_iff j k)

  pub delete-IsMap : (k : String) (m : Dict V) → IsMap m → IsMap (delete k m)
  unfolding lookup delete
  delete-IsMap k [] h = tt
  delete-IsMap k ((j, w) ∷ m) h =
      ground (arith, delete-IsMap k m h.1, lookup-delete k j m, eq_iff k j, eq_iff j k)

  -- A fresh key makes the map one longer, an old one leaves its size.
  pub length-insert :
      (k : String) (v : V) (m : Dict V)
      → length (insert k v m) ≡ elim (lookup k m) [ none ↦ suc (length m) | some _ ↦ length m ]
  unfolding lookup insert
  length-insert k v [] = refl
  length-insert k v ((j, w) ∷ m) = ground (arith, length-insert k v m)

  pub delete_absent : (k : String) (m : Dict V) → lookup k m ≡ none → delete k m ≡ m
  unfolding lookup delete
  delete_absent k [] h = refl
  delete_absent k ((j, w) ∷ m) h = ground (arith, delete_absent k m)

  pub length-delete :
      (k : String) (m : Dict V)
      → IsMap m
      → length m
        ≡ elim (lookup k m) [ none ↦ length (delete k m) | some _ ↦ suc (length (delete k m)) ]
  unfolding lookup delete
  length-delete k [] h = refl
  length-delete k ((j, w) ∷ m) h =
      ground (arith, length-delete k m h.1, delete_absent k m, eq_iff j k)

-- A property of every entry of a map.
module _ {ℓ κ} {V : Type ℓ} (P : String → V → Type κ) where
  abbrev pub AllEntries : Dict V → Type κ
  AllEntries [] = Unit
  AllEntries ((k, v) ∷ m) = P k v × AllEntries m

module _ {V : Type 0} (P : String → V → Type 0) where
  pub AllEntries-insert :
      (k : String) (v : V) (m : Dict V) → P k v → AllEntries P m → AllEntries P (insert k v m)
  unfolding insert
  AllEntries-insert k v [] p h = (p, tt)
  AllEntries-insert k v ((j, w) ∷ m) p h = elim (Bool-cases (str_eq j k)) [
    | inl e ↦ rw e (p, h.1)
    | inr e ↦ rw e (h.0, AllEntries-insert k v m p h.1)
  ]

  pub AllEntries-delete : (k : String) (m : Dict V) → AllEntries P m → AllEntries P (delete k m)
  unfolding delete
  AllEntries-delete k [] h = tt
  AllEntries-delete k ((j, w) ∷ m) h = elim (Bool-cases (str_eq j k)) [
    | inl e ↦ rw e (AllEntries-delete k m h.1)
    | inr e ↦ rw e (h.0, AllEntries-delete k m h.1)
  ]

  pub AllEntries-lookup :
      (k : String) (v : V) (m : Dict V) → lookup k m ≡ some v → AllEntries P m → P k v
  unfolding lookup
  AllEntries-lookup k v [] e h = cc
  AllEntries-lookup k v ((j, w) ∷ m) e h = elim (Bool-cases (str_eq j k)) [
    | inl s ↦ subst₂ P ((eq_iff j k).0 s) (ground arith) h.0
    | inr s ↦ AllEntries-lookup k v m (rw s at e) h.1
  ]
