-- ===== src/Common/Dict/Size.antt =====
-- How many entries a map has, where each key has one.
use mathlib.Core.Path.{◌≡◌, refl}
use mathlib.Core.List.{[], ◌∷◌}
use mathlib.Core.Option.{none, some}
use Prim.Native.Nat.{suc}
use native.Mathlib.Omega.{arith}
use wtelnet.Common.Lists.{length}
use wtelnet.Common.Word.{Int64}
use wtelnet.Common.Dict.{Dict, lookup, insert, delete, lookup-insert, lookup-delete}

module _ {V : Type 0} where
  -- No key has two entries.
  abbrev pub IsUnique : Dict V → Type 0
  IsUnique [] = Unit {0}
  IsUnique ((key, held) ∷ rest) = (lookup key rest ≡ none) × IsUnique rest

  pub length-insert_new :
      (id : Int64) (new : V) (dict : Dict V)
      → lookup id dict ≡ none
      → length (insert id new dict) ≡ suc (length dict)
  unfolding lookup insert
  length-insert_new id new [] h = refl
  length-insert_new id new (e ∷ rest) h = ground (arith, length-insert_new id new rest)

  pub length-insert_held :
      (id : Int64) (new held : V) (dict : Dict V)
      → lookup id dict ≡ some held
      → length (insert id new dict) ≡ length dict
  unfolding lookup insert
  length-insert_held id new held [] h = ground arith
  length-insert_held id new held (e ∷ rest) h = ground (arith, length-insert_held id new held rest)

  pub insert-IsUnique :
      (id : Int64) (new : V) (dict : Dict V) → IsUnique dict → IsUnique (insert id new dict)
  unfolding lookup insert
  insert-IsUnique id new [] u = ground arith
  insert-IsUnique id new ((key, held) ∷ rest) u =
      ground (arith, insert-IsUnique id new rest u.1, lookup-insert id key new rest)

  pub delete-absent : (id : Int64) (dict : Dict V) → lookup id dict ≡ none → delete id dict ≡ dict
  unfolding lookup delete
  delete-absent id [] h = refl
  delete-absent id (e ∷ rest) h = ground (arith, delete-absent id rest)

  pub delete-IsUnique : (id : Int64) (dict : Dict V) → IsUnique dict → IsUnique (delete id dict)
  unfolding delete
  delete-IsUnique id [] u = tt
  delete-IsUnique id ((key, held) ∷ rest) u =
      ground (arith, delete-IsUnique id rest u.1, lookup-delete id key rest)

  pub length-delete_held :
      (id : Int64) (held : V) (dict : Dict V)
      → IsUnique dict
      → lookup id dict ≡ some held
      → suc (length (delete id dict)) ≡ length dict
  unfolding lookup delete
  length-delete_held id held [] u h = ground (arith, h)
  length-delete_held id held ((key, v) ∷ rest) u h =
      ground (arith, length-delete_held id held rest u.1, delete-absent id rest, u.0)
