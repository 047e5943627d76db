-- ===== src/DocDb/Models.antt =====
-- src/youwol/utils/clients/docdb/models.py: tables, clauses, queries. Every column of the tables
-- modelled here holds text, so a document is a dict of texts.
use Prim.Native.String
use text.Mathlib.Text.{is_lt, is_le}
use py_youwol.Prelude.{ℕ, String, Bool, none, some, List}
use py_youwol.Prelude.{◌==◌}
use py_youwol.Prelude.Dict.{Dict, get}
use py_youwol.Prelude.Exec.{Result, ok, err, key_error, then_ok}

abbrev pub Doc : Type 0
Doc = Dict String

-- `doc[column]`
abbrev pub field_of : Doc → String → Result String
field_of doc column = elim (get column doc) [ none ↦ err key_error | some v ↦ ok v ]

pub record OrderingClause : Type 0 where
  pub name : String
  pub order : String

pub record TableBody : Type 0 where
  pub name : String
  pub columns : List String
  pub partition_key : List String
  pub clustering_columns : List String
  pub clustering_order : List OrderingClause

pub record SecondaryIndex : Type 0 where
  pub name : String
  pub column_name : String

-- The names that `relation` takes.
pub data Relation : Type 0 where
  eq lt leq gt geq : Relation

pub record WhereClause : Type 0 where
  pub column : String
  pub relation : Relation
  pub term : String

abbrev pub compare_by : Relation → String → String → Bool
compare_by eq value target = value == target
compare_by lt value target = is_lt (String.compare value target)
compare_by leq value target = is_le (String.compare value target)
compare_by gt value target = is_lt (String.compare target value)
compare_by geq value target = is_le (String.compare target value)

-- `WhereClause.is_matching`, for a column of text: the branch for numbers is never taken.
unfoldable pub is_matching : WhereClause → Doc → Result Bool
is_matching clause doc =
    then_ok (field_of doc clause.column)
      (λ value. ok (compare_by clause.relation value clause.term))

pub record Query : Type 0 where
  pub where_clause : List WhereClause
  pub ordering_clause : List OrderingClause

pub record QueryBody : Type 0 where
  pub max_results : ℕ
  pub select_clauses : List String
  pub query : Query
