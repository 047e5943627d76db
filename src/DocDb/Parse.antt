-- ===== src/DocDb/Parse.antt =====
-- `QueryBody.parse` of src/youwol/utils/clients/docdb/models.py.
pub mod Laws
use py_youwol.Prelude.{ℕ, String, Bool, true, false, Option, none, some, List, [], ◌∷◌, ◌≡◌, refl}
use py_youwol.Prelude.{◌==◌, if◌then◌else◌}
use py_youwol.Prelude.Exec.{Result, ok, err, value_error, then_ok}
use py_youwol.Prelude.Text.{has, split, cut, int}
use py_youwol.DocDb.Models.{Relation, eq, lt, leq, gt, geq, WhereClause, QueryBody}

abbrev clause_of : Relation → String × String → Result WhereClause
clause_of relation (column, term) =
    ok (record { column = column; relation = relation; term = term })

-- The symbols in the order of the tests. A text with none gives `None`, which `Query` refuses.
unfoldable pub parse_clause : String → Result WhereClause
parse_clause clause = elim (cut ">=" clause) [
  | some p ↦ clause_of geq p
  | none ↦ elim (cut ">" clause) [
    | some p ↦ clause_of gt p
    | none ↦ elim (cut "<=" clause) [
      | some p ↦ clause_of leq p
      | none ↦ elim (cut "<" clause) [
        | some p ↦ clause_of lt p
        | none ↦ elim (cut "=" clause) [ some p ↦ clause_of eq p | none ↦ err value_error ]
      ]
    ]
  ]
]

parse_clauses : List String → Result (List WhereClause)
parse_clauses [] = ok []
parse_clauses (w ∷ ws) =
    then_ok (parse_clause w) (λ c. then_ok (parse_clauses ws) (λ cs. ok (c ∷ cs)))

abbrev two : String × List String → Result (String × String)
two (a, b ∷ []) = ok (a, b)
two (a, _) = err value_error

-- `[a, b] = s.split(chr(k))`
abbrev unpack : ℕ → String → Result (String × String)
unpack k s = two (split k s)

-- The three parts of a query, `where@select#count`; a part that is not there is empty.
abbrev pieces : String → Result (String × String × String)
pieces query_str =
    if has b'@' query_str
    then then_ok (unpack b'@' query_str) (λ (where_str, remaining).
      if has b'#' remaining
      then then_ok (unpack b'#' remaining)
          (λ (select_str, count_str). ok (where_str, select_str, count_str))
      else ok (where_str, "", ""))
    else if has b'#' query_str
    then then_ok (unpack b'#' query_str) (λ (where_str, count_str). ok (where_str, "", count_str))
    else ok (query_str, "", "")

abbrev count_of : String → Result ℕ
count_of count_str =
    if count_str == ""
    then ok 100
    else elim (int count_str) [ none ↦ err value_error | some n ↦ ok n ]

abbrev parts : String × List String → List String
parts (w, ws) = w ∷ ws

unfoldable pub parse : String → Result QueryBody
unfolding parse_clauses parse_clause has split cut int
parse query_str = then_ok (pieces query_str) (λ (where_str, select_str, count_str).
    then_ok (if where_str == "" then ok [] else parse_clauses (parts (split b',' where_str)))
      (λ clauses. then_ok (count_of count_str) (λ n. ok (record {
        max_results = n;
        select_clauses = if select_str == "" then [] else parts (split b',' select_str);
        query = record { where_clause = clauses; ordering_clause = [] };
      }))))

parse_runs :
    parse "drive_id=d1,name>=b@name,type#12"
    ≡ ok (record {
      max_results = 12;
      select_clauses = "name" ∷ "type" ∷ [];
      query = record {
        where_clause =
            record { column = "drive_id"; relation = eq; term = "d1" }
            ∷ record { column = "name"; relation = geq; term = "b" }
            ∷ [];
        ordering_clause = [];
      };
    })
unfolding parse
parse_runs = refl
