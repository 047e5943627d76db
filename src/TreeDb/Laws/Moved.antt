-- ===== src/TreeDb/Laws/Moved.antt =====
-- The document of an item that has moved.
use py_youwol.Prelude.{
  String, ◌≡◌, refl, ◌∙◌, ap, Bool, none, some, List, [], ◌∷◌, ◌==◌, if◌then◌else◌, first, take,
  select, inl, inr, Bool-cases, Option-cases,
}
use py_youwol.Prelude.Dict.{get, put, get-put}
use py_youwol.Prelude.Exec.{ok, then_ok, bind_ok}
use py_youwol.Prelude.Exec.Returns.{Result-cases}
use py_youwol.DocDb.Models.{Doc, field_of}
use py_youwol.TreeDb.Models.{Codec, DocDbs, ItemResponse}
use py_youwol.TreeDb.Docs.{doc_to_item}
use py_youwol.TreeDb.Access.{items}
use py_youwol.TreeDb.Handlers.Items.{get_item}
use py_youwol.TreeDb.Handlers.Entities.{Destination}
use py_youwol.TreeDb.Invariant.Tables.{IsDoc, IsTree}
use py_youwol.TreeDb.Invariant.Handlers.{put-IsDoc}
use py_youwol.TreeDb.Laws.Blocks.{field_of-get, field_of-put}
use py_youwol.TreeDb.Laws.Store.{doc_at, get_document_lem}
use py_youwol.TreeDb.Laws.Items.{get_item-document}

-- The item in its new place.
abbrev pub item_at : Destination → ItemResponse → ItemResponse
item_at to i = record i { folder_id = to.id; drive_id = to.drive_id; group_id = to.group_id }

pub take_one :
    (p : Doc → Bool) (d : Doc) (ds : List Doc) → first p ds ≡ some d → take 1 (select p ds) ≡ d ∷ []
take_one p d [] e = cc
take_one p d (x ∷ xs) e = elim (Bool-cases (p x)) [
  | inl t ↦ rw t (ap (λ x. elim x [ none ↦ [] | some y ↦ y ∷ [] ]) (rw t at e))
  | inr n ↦ rw n (take_one p d xs (rw n at e))
]

abbrev pub moved_doc : Destination → Doc → Doc
moved_doc to d = put "drive_id" to.drive_id (put "group_id" to.group_id (put "folder_id" to.id d))

pub get-moved_doc :
    (to : Destination) (d : Doc) (c : String)
    → get c (moved_doc to d) ≡ (
        if "drive_id" == c
        then some to.drive_id
        else if "group_id" == c
        then some to.group_id
        else if "folder_id" == c
        then some to.id
        else get c d)
get-moved_doc to d c =
    get-put c "drive_id" to.drive_id (put "group_id" to.group_id (put "folder_id" to.id d))
    ∙ rw (get-put c "group_id" to.group_id (put "folder_id" to.id d), get-put c "folder_id" to.id d)
        refl

field_of-moved :
    (to : Destination) (d : Doc) (c v : String)
    → (if "drive_id" == c
        then some to.drive_id
        else if "group_id" == c
        then some to.group_id
        else if "folder_id" == c
        then some to.id
        else get c d)
      ≡ some v
    → field_of (moved_doc to d) c ≡ ok v
field_of-moved to d c v e = field_of-get (moved_doc to d) c v (get-moved_doc to d c ∙ e)

-- The two readings of an item that differ by its place.
read_both :
    (c : Codec) (to : Destination) (i f v r g n k m : String)
    → then_ok (c.borrowed_of m) (λ b. then_ok (c.decode_id r) (λ raw. ok (record {
      item_id = i;
      asset_id = r;
      raw_id = raw;
      folder_id = to.id;
      drive_id = to.drive_id;
      group_id = to.group_id;
      name = n;
      kind = k;
      metadata = m;
      borrowed = b;
    })))
      ≡ then_ok
          (then_ok (c.borrowed_of m) (λ b. then_ok (c.decode_id r) (λ raw. ok (record {
            item_id = i;
            asset_id = r;
            raw_id = raw;
            folder_id = f;
            drive_id = v;
            group_id = g;
            name = n;
            kind = k;
            metadata = m;
            borrowed = b;
          }))))
          (λ x. ok (item_at to x))
read_both c to i f v r g n k m = elim (Result-cases (c.borrowed_of m)) [
  | inr (e, b) ↦ rw b refl
  | inl (w, b) ↦ elim (Result-cases (c.decode_id r)) [
    | inr (e, x) ↦ rw (b, x) refl
    | inl (raw, x) ↦ rw (b, x) refl
  ]
]

pub doc_to_item-moved_doc :
    (c : Codec) (to : Destination) (d : Doc)
    → IsDoc items d
    → doc_to_item c (moved_doc to d) [] ≡ then_ok (doc_to_item c d []) (λ i. ok (item_at to i))
unfolding doc_to_item bind_ok
doc_to_item-moved_doc c to d
      (
        ((i, ei), ((f, ef), ((v, ev), ((r, er), ((g, eg), ((n, en), ((k, ek), ((m, em), t)))))))),
        u,
      ) =
    rw
      (
        field_of-moved to d "item_id" i ei,
        field_of-moved to d "folder_id" to.id refl,
        field_of-moved to d "drive_id" to.drive_id refl,
        field_of-moved to d "related_id" r er,
        field_of-moved to d "group_id" to.group_id refl,
        field_of-moved to d "name" n en,
        field_of-moved to d "type" k ek,
        field_of-moved to d "metadata" m em,
        field_of-get d "item_id" i ei,
        field_of-get d "folder_id" f ef,
        field_of-get d "drive_id" v ev,
        field_of-get d "related_id" r er,
        field_of-get d "group_id" g eg,
        field_of-get d "name" n en,
        field_of-get d "type" k ek,
        field_of-get d "metadata" m em,
      )
      (read_both c to i f v r g n k m)

pub doc_to_item-put_owner :
    (c : Codec) (d : Doc) (owner : String)
    → doc_to_item c (put "owner" owner d) [] ≡ doc_to_item c d []
unfolding doc_to_item
doc_to_item-put_owner c d owner = rw (
  field_of-put d "owner" owner "metadata" refl,
  field_of-put d "owner" owner "item_id" refl,
  field_of-put d "owner" owner "related_id" refl,
  field_of-put d "owner" owner "folder_id" refl,
  field_of-put d "owner" owner "drive_id" refl,
  field_of-put d "owner" owner "group_id" refl,
  field_of-put d "owner" owner "name" refl,
  field_of-put d "owner" owner "type" refl,
)

-- The document behind an item that is read.
pub document_of_item :
    (c : Codec) (id : String) (s : DocDbs) (i : ItemResponse)
    → IsTree s
    → (get_item c id s).0 ≡ ok i
    → (d : Doc) × (doc_at items id s ≡ some d) × (doc_to_item c d [] ≡ ok i)
document_of_item c id s i h e = elim (Option-cases (doc_at items id s)) [
  | inl n ↦ cc (rw (get_item-document c id s, get_document_lem items id s h, n) at e)
  | inr (d, t) ↦ (d, t, rw (get_item-document c id s, get_document_lem items id s h, t) at e)
]

pub moved_doc-IsDoc : (to : Destination) (d : Doc) → IsDoc items d → IsDoc items (moved_doc to d)
moved_doc-IsDoc to d h =
    put-IsDoc items "drive_id" to.drive_id (put "group_id" to.group_id (put "folder_id" to.id d))
      refl
      (put-IsDoc items "group_id" to.group_id (put "folder_id" to.id d) refl
        (put-IsDoc items "folder_id" to.id d refl h))
