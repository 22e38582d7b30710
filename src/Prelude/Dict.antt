-- ===== src/Prelude/Dict.antt =====
-- Association lists with text keys.
use thunder_go.Prelude.{◌≡◌, Option, none, some, List, if◌then◌else◌}
use thunder_go.Prelude.Text.{Text, text_eq}
use thunder_go.Prelude.Text.Laws.{text_eq_iff, text_eq_refl}
use thunder_go.Prelude.Assoc

module _ {ℓ} {V : Type ℓ} where
  abbrev pub lookup : Text → List (Text × V) → Option V
  lookup = Assoc.lookup text_eq

  abbrev pub remove : Text → List (Text × V) → List (Text × V)
  remove = Assoc.remove text_eq

  abbrev pub insert : Text → V → List (Text × V) → List (Text × V)
  insert = Assoc.insert text_eq

  pub lookup-remove :
      (k j : Text) (m : List (Text × V))
      → lookup j (remove k m) ≡ (if text_eq k j then none else lookup j m)
  lookup-remove = Assoc.lookup-remove text_eq text_eq_iff

  pub lookup-insert :
      (k j : Text) (v : V) (m : List (Text × V))
      → lookup j (insert k v m) ≡ (if text_eq k j then some v else lookup j m)
  lookup-insert = Assoc.lookup-insert text_eq text_eq_iff

  pub lookup-insert_self :
      (k : Text) (v : V) (m : List (Text × V)) → lookup k (insert k v m) ≡ some v
  lookup-insert_self = Assoc.lookup-insert_self text_eq text_eq_iff

pub ruleset dict_laws = (lookup-remove, lookup-insert, text_eq_refl)
