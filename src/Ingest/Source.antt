-- ===== src/Ingest/Source.antt =====
-- internal/ingest/ingest.go: `Source.String`.
use thunder_go.Prelude.{not, [], ◌++◌, if◌then◌else◌}
use thunder_go.Prelude.Int.{ℤ, pos, eqb_ℤ}
use thunder_go.Prelude.Text.{Text, codes, is_empty}
use thunder_go.Prelude.Text.Decimal.{print_int}

pub record Source : Type 0 where
  pub kind : Text
  pub user_name : Text
  pub user_id : ℤ
  pub chat_title : Text
  pub chat_id : ℤ

-- A name and an identifier, after a word; without a name the identifier stands alone.
named : Text → Text → ℤ → Text
unfolding is_empty
named word name id =
    if not (is_empty name)
    then word
      ++ (name ++ (if eqb_ℤ id (pos 0) then [] else codes " (" ++ (print_int id ++ codes ")")))
    else if not (eqb_ℤ id (pos 0))
    then word ++ print_int id
    else []

pub source_text : Source → Text
unfolding named
source_text s =
    s.kind
    ++ (named (codes " from ") s.user_name s.user_id ++ named (codes " in ") s.chat_title s.chat_id)
