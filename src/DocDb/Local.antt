-- ===== src/DocDb/Local.antt =====
-- src/youwol/utils/clients/docdb/local_docdb.py: a table kept in memory and written to one file.
-- The class and its reading methods; the writing ones are in DocDb/Write.
use Prim.Native.String
use text.Mathlib.Text.{is_le}
use py_youwol.Prelude.{
  String, Bool, true, false, not, ◌&&◌, ◌||◌, Option, none, some, List, [], ◌∷◌, ◌++◌, map, ltb,
  ◌==◌, if◌then◌else◌, length, take, any, all,
}
use py_youwol.Prelude.Dict.{get}
use py_youwol.Prelude.Exec.{Result, ok, err, http, runtime_error, then_ok}
use py_youwol.DocDb.Models.{
  Doc, field_of, OrderingClause, TableBody, SecondaryIndex, eq, WhereClause, is_matching, QueryBody,
}

-- The paths are left out; `persisted` is what the table's `data.json` holds.
pub record LocalDocDb : Type 0 where
  pub table_body : TableBody
  pub secondary_indexes : List SecondaryIndex
  pub documents : List Doc
  pub persisted : List Doc

-- `get_local_nosql_instance`: the documents are those of the file.
unfoldable pub open_table : TableBody → List SecondaryIndex → List Doc → LocalDocDb
open_table table_body secondary_indexes file = record {
  table_body = table_body;
  secondary_indexes = secondary_indexes;
  documents = file;
  persisted = file;
}

abbrev pub Key : Type 0
Key = List (String × String)

-- `[[k, doc[k]] for k in columns]`
abbrev pub key_columns : List String → Doc → Result Key
key_columns [] doc = ok []
key_columns (k ∷ ks) doc =
    then_ok (field_of doc k) (λ v. then_ok (key_columns ks doc) (λ vs. ok ((k, v) ∷ vs)))

-- The list stands for the text that `str` makes of it.
unfoldable pub primary_key_id : TableBody → Doc → Result Key
primary_key_id table doc =
    then_ok (key_columns table.partition_key doc)
      (λ ks. then_ok (key_columns table.clustering_columns doc) (λ cs. ok (ks ++ cs)))

abbrev pub key_eq : Key → Key → Bool
key_eq [] [] = true
key_eq ((a, b) ∷ k) ((c, d) ∷ l) = (a == c && b == d) && key_eq k l
key_eq _ _ = false

-- `clause.is_matching(doc)` for every clause, in order; the first `False` ends the loop.
unfoldable pub matches_all : List WhereClause → Doc → Result Bool
unfolding is_matching
matches_all [] doc = ok true
matches_all (c ∷ cs) doc =
    let rest = matches_all cs doc in then_ok (is_matching c doc) (λ m. if m then rest else ok false)

-- `[doc for doc in documents if is_matching(doc)]`
unfoldable pub filter_docs : (Doc → Result Bool) → List Doc → Result (List Doc)
filter_docs p [] = ok []
filter_docs p (d ∷ ds) =
    then_ok (p d) (λ m. then_ok (filter_docs p ds) (λ r. ok (if m then d ∷ r else r)))

abbrev pub Keyed : Type 0
Keyed = String × Doc

-- `doc[col]` for every document
unfoldable pub with_keys : String → List Doc → Result (List Keyed)
with_keys col [] = ok []
with_keys col (d ∷ ds) =
    then_ok (field_of d col) (λ k. then_ok (with_keys col ds) (λ r. ok ((k, d) ∷ r)))

-- `a` stands before `b`, where `a` came first.
abbrev pub stays : Bool → String → String → Bool
stays false a b = is_le (String.compare a b)
stays true a b = is_le (String.compare b a)

unfoldable pub insert_sorted : Bool → Keyed → List Keyed → List Keyed
insert_sorted reverse x [] = x ∷ []
insert_sorted reverse x (y ∷ ys) =
    if stays reverse x.0 y.0 then x ∷ y ∷ ys else y ∷ insert_sorted reverse x ys

-- `sorted(r, key, reverse)`: stable, also in reverse.
unfoldable pub sort_keyed : Bool → List Keyed → List Keyed
unfolding insert_sorted
sort_keyed reverse [] = []
sort_keyed reverse (x ∷ xs) = insert_sorted reverse x (sort_keyed reverse xs)

abbrev pub order_of : String → List OrderingClause → Option String
order_of name [] = none
order_of name (c ∷ cs) =
    let rest = order_of name cs in
    elim rest [ some o ↦ some o | none ↦ if c.name == name then some c.order else none ]

abbrev pub is_desc : OrderingClause → List OrderingClause → Bool
is_desc ordering query_ordering =
    ordering.order == "DESC"
    || elim (order_of ordering.name query_ordering) [ none ↦ false | some o ↦ o == "DESC" ]

-- The loop over `clustering_order`.
unfoldable pub order_docs : List OrderingClause → List OrderingClause → List Doc → Result (List Doc)
unfolding with_keys sort_keyed
order_docs [] query_ordering r = ok r
order_docs (o ∷ os) query_ordering r =
    then_ok (with_keys o.name r) (λ ks.
      order_docs os query_ordering (map (λ x. x.1) (sort_keyed (is_desc o query_ordering) ks)))

abbrev pub owner_clause : String → WhereClause
owner_clause owner = record { column = "owner"; relation = eq; term = owner }

-- `LocalDocDbClient.query`
unfoldable pub query : QueryBody → String → LocalDocDb → Result (List Doc)
unfolding matches_all filter_docs order_docs
query body owner db =
    if ltb 1 (length body.query.ordering_clause)
    then err runtime_error
    else then_ok
        (filter_docs (matches_all (owner_clause owner ∷ body.query.where_clause)) db.documents)
        (λ r.
          then_ok (order_docs db.table_body.clustering_order body.query.ordering_clause r)
            (λ sorted. ok (take body.max_results sorted)))

abbrev pub equals : String × String → WhereClause
equals (k, v) = record { column = k; relation = eq; term = v }

abbrev pub has_key : String → List (String × String) → Bool
has_key k keys = elim (get k keys) [ none ↦ false | some v ↦ true ]

-- The query is by the whole partition key, or by one column that has an index.
abbrev pub valid_for_indexes : LocalDocDb → List (String × String) → Bool
valid_for_indexes db [] = all (λ k. has_key k []) db.table_body.partition_key
valid_for_indexes db ((k, v) ∷ []) =
    all (λ p. has_key p ((k, v) ∷ [])) db.table_body.partition_key
    || any (λ i. i.column_name == k) db.secondary_indexes
valid_for_indexes db keys = all (λ k. has_key k keys) db.table_body.partition_key

abbrev pub head_or_404 : List Doc → Result Doc
head_or_404 [] = err (http 404)
head_or_404 (d ∷ _) = ok d

-- `LocalDocDbClient.get_document`, with `allow_filtering` false.
unfoldable pub get_document :
    List (String × String) → List (String × String) → String → LocalDocDb → Result Doc
unfolding query
get_document partition_keys clustering_keys owner db =
    if not (valid_for_indexes db partition_keys)
    then err runtime_error
    else then_ok
        (query
          (record {
            max_results = 1;
            select_clauses = [];
            query = record {
              where_clause = map equals partition_keys ++ map equals clustering_keys;
              ordering_clause = [];
            };
          })
          owner db)
        head_or_404
