-- ===== src/Common/Dict.antt =====
-- Go maps with `int64` keys, as association lists. The code's maps are read by key, written by key,
-- deleted from and ranged over; a range visits the entries in an order that Go leaves open.
pub mod Size
use mathlib.Core.Path.{◌≡◌, refl}
use mathlib.Core.List.{List, [], ◌∷◌}
use mathlib.Core.Option.{Option, none, some}
use Prim.Native.Nat.{◌+◌, ◌≤◌}
use native.Mathlib.Omega.{arith}
use wtelnet.Common.Tests.{◌==◌, if◌then◌else◌}
use wtelnet.Common.Lists.{length}
use wtelnet.Common.Word.{Int64}

abbrev pub Dict : Type 0 → Type 0
Dict V = List (Int64 × V)

module _ {V : Type 0} where
  unfoldable pub lookup : Int64 → Dict V → Option V
  lookup id [] = none
  lookup id ((key, held) ∷ rest) = if key == id then some held else lookup id rest

  unfoldable pub delete : Int64 → Dict V → Dict V
  delete id [] = []
  delete id ((key, held) ∷ rest) =
      if key == id then delete id rest else (key, held) ∷ delete id rest

  unfoldable pub insert : Int64 → V → Dict V → Dict V
  insert id new [] = (id, new) ∷ []
  insert id new ((key, held) ∷ rest) =
      if key == id then (id, new) ∷ rest else (key, held) ∷ insert id new rest

  pub lookup-insert :
      (id other : Int64) (new : V) (dict : Dict V)
      → lookup other (insert id new dict) ≡ (if id == other then some new else lookup other dict)
  unfolding lookup insert
  lookup-insert id other new [] = refl
  lookup-insert id other new (e ∷ rest) = ground (arith, lookup-insert id other new rest)

  pub lookup-delete :
      (id other : Int64) (dict : Dict V)
      → lookup other (delete id dict) ≡ (if id == other then none else lookup other dict)
  unfolding lookup delete
  lookup-delete id other [] = ground arith
  lookup-delete id other (e ∷ rest) = ground (arith, lookup-delete id other rest)

  pub length-delete : (id : Int64) (dict : Dict V) → length (delete id dict) ≤ length dict
  unfolding delete
  length-delete id [] = omega arith
  length-delete id (e ∷ rest) = ground (arith, length-delete id rest)

  pub length-insert :
      (id : Int64) (new : V) (dict : Dict V) → length (insert id new dict) ≤ length dict + 1
  unfolding insert
  length-insert id new [] = omega arith
  length-insert id new (e ∷ rest) = ground (arith, length-insert id new rest)
