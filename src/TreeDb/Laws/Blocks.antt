-- ===== src/TreeDb/Laws/Blocks.antt =====
-- Running blocks, and fields of documents after a write to another column.
use py_youwol.Prelude.{
  String, ◌≡◌, refl, ◌∙◌, ap, Option, none, some, [], Bool, true, false, ◌==◌, if◌then◌else◌,
}
use py_youwol.Prelude.Dict.{get, put, get-put}
use py_youwol.Prelude.Exec.{Error, key_error, Result, ok, err, Exec, lift, ◌>>=◌, continue, then_ok}
use py_youwol.DocDb.Models.{Doc, field_of}
use py_youwol.TreeDb.Docs.{doc_to_folder}

module _ {S A B : Type 0} (m : Exec S A) (f : A → Exec S B) {s : S} where
  pub bind_of_ok : {a : A} {t : S} → m s ≡ (ok a, t) → (m >>= f) s ≡ f a t
  unfolding ◌>>=◌
  bind_of_ok e = rw e

  pub bind_of_err : {e : Error} {t : S} → m s ≡ (err e, t) → (m >>= f) s ≡ (err e, t)
  unfolding ◌>>=◌
  bind_of_err e = rw e

abbrev value_or_raise : Option String → Result String
value_or_raise o = elim o [ none ↦ err key_error | some v ↦ ok v ]

pub field_of-get : (d : Doc) (c v : String) → get c d ≡ some v → field_of d c ≡ ok v
field_of-get d c v e = ap value_or_raise e

pub field_of-put :
    (d : Doc) (k v c : String) → (k == c) ≡ false → field_of (put k v d) c ≡ field_of d c
field_of-put d k v c n = ap value_or_raise (get-put c k v d ∙ rw n)

pub field_of-put_same : (d : Doc) (k v : String) → (k == k) ≡ true → field_of (put k v d) k ≡ ok v
field_of-put_same d k v t = field_of-get (put k v d) k v (get-put k k v d ∙ rw t)

pub doc_to_folder-put_owner :
    (d : Doc) (owner : String) → doc_to_folder (put "owner" owner d) [] ≡ doc_to_folder d []
unfolding doc_to_folder
doc_to_folder-put_owner d owner = rw (
  field_of-put d "owner" owner "folder_id" refl,
  field_of-put d "owner" owner "parent_folder_id" refl,
  field_of-put d "owner" owner "drive_id" refl,
  field_of-put d "owner" owner "group_id" refl,
  field_of-put d "owner" owner "name" refl,
  field_of-put d "owner" owner "type" refl,
  field_of-put d "owner" owner "metadata" refl,
)

-- A block that reads and then converts what it read.
pub continue-lift :
    {S A B : Type 0} (r : Result A) (g : A → Result B) (s : S)
    → continue r (λ a. lift (g a)) s ≡ (then_ok r g, s)
unfolding lift
continue-lift (ok a) g s = refl
continue-lift (err e) g s = refl

pub then_ok-if :
    {A B : Type 0} (b : Bool) (r q : Result A) (f : A → Result B)
    → then_ok (if b then r else q) f ≡ (if b then then_ok r f else then_ok q f)
then_ok-if true r q f = refl
then_ok-if false r q f = refl
