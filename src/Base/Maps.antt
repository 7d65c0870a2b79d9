-- ===== src/Base/Maps.antt =====
-- `HashMap` with text keys, as a function from keys: its order is never looked at.
use exa_postgres_interface.Base.Tests.{if◌then◌else◌}
use exa_postgres_interface.Base.Text.{Text, text_eq}
use exa_postgres_interface.Base.Text.{text_eq_refl}
use mathlib.Core.Bool.{Bool, false}
use mathlib.Core.Option.{Option, none, some}
use mathlib.Core.Path.{◌≡◌}

abbrev pub Map {ℓ} : Type ℓ → Type ℓ
Map V = Text → Option V

module _ {ℓ} {V : Type ℓ} where
  abbrev pub new : Map V
  new key = none

  unfoldable pub insert : Text → V → Map V → Map V
  insert name v m key = if text_eq key name then some v else m key

  unfoldable pub remove : Text → Map V → Map V
  remove name m key = if text_eq key name then none else m key

  unfoldable pub retain : (V → Bool) → Map V → Map V
  retain p m key = elim (m key) [ none ↦ none | some v ↦ if p v then some v else none ]

  pub insert_same : (name : Text) (v : V) (m : Map V) → insert name v m name ≡ some v
  unfolding insert
  insert_same name v m = rw (text_eq_refl name)

  pub insert_other :
      (name key : Text) (v : V) (m : Map V) → text_eq key name ≡ false → insert name v m key ≡ m key
  unfolding insert
  insert_other name key v m h = rw h

  pub remove_same : (name : Text) (m : Map V) → remove name m name ≡ none
  unfolding remove
  remove_same name m = rw (text_eq_refl name)

  pub remove_other :
      (name key : Text) (m : Map V) → text_eq key name ≡ false → remove name m key ≡ m key
  unfolding remove
  remove_other name key m h = rw h
