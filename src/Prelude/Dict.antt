-- ===== src/Prelude/Dict.antt =====
-- Python's `dict` with string keys. The program reads it by key only, or goes over all of its
-- entries, so the order of the entries is not modelled: a dict is what each key has.
use Prim.Native.String.{String}
use mathlib.Core.Bool.{Bool}
use mathlib.Core.Option.{Option, none, some}
use text.Mathlib.Text.{◌==◌}
use fastapi.Prelude.Tests.{if◌then◌else◌}

abbrev pub Dict {ℓ} : Type ℓ → Type ℓ
Dict V = String → Option V

module _ {ℓ} {V : Type ℓ} where
  abbrev pub empty : Dict V
  empty k = none

  -- `d[k] = v`
  abbrev pub put : String → V → Dict V → Dict V
  put k v d j = if k == j then some v else d j

  -- `d.pop(k, None)`
  abbrev pub remove : String → Dict V → Dict V
  remove k d j = if k == j then none else d j

  -- The entries that pass the test, all others popped.
  abbrev pub keep : (String → V → Bool) → Dict V → Dict V
  keep test d j = elim (d j) [ none ↦ none | some v ↦ if test j v then some v else none ]
