-- ===== src/Assets/Laws/Permission.antt =====
-- `get_permission` of permissions.py, on policies that can be read.
use Prim.Native.Nat.{ℕ}
use py_youwol.Prelude.{
  String, Bool, true, false, inl, inr, Bool-cases, ◌≡◌, refl, sym, ◌∙◌, ◌&&◌, ◌||◌, none, some,
  List, [], ◌∷◌, arith, select, any, All, if◌then◌else◌,
}
use py_youwol.Prelude.Int.{ℤ, pos, ◌-ℤ◌, -ℤ_parts, ltb_ℤ}
use py_youwol.Prelude.Dict.{get}
use py_youwol.Prelude.Exec.{Result, ok, err}
use py_youwol.DocDb.Models.{Doc}
use py_youwol.DocDb.Table.Rows.{has_value}
use py_youwol.DocDb.Table.Reads.{filter_docs-select}
use py_youwol.Assets.Models.{Json, PermissionsResp}
use py_youwol.Assets.Permissions.{
  field_is, any_of, expiration_of, expirations_of, max_ℤ, latest, no_permission, permission_until,
  permission_of, get_permission,
}

abbrev pub is_authorized : Doc → Bool
is_authorized = has_value "read" "authorized"

abbrev pub is_until : Doc → Bool
is_until = has_value "read" "expiration-date"

-- A policy that can be read: if it has a deadline, the deadline is known.
pub record IsRule (j : Json) (d : Doc) : Type 0 where
  pub read : String
  pub share : String
  pub read_get : get "read" d ≡ some read
  pub share_get : get "share" d ≡ some share
  pub deadline : is_until d ≡ true → (e : ℤ) × (expiration_of j d ≡ ok e)

abbrev pub is_shared : Doc → Bool
is_shared = has_value "share" "authorized"

-- The deadline of the policy is after `now`.
abbrev pub is_alive : Json → ℕ → Doc → Bool
is_alive j now d =
    is_until d && elim (expiration_of j d) [ ok e ↦ ltb_ℤ (pos now) e | err x ↦ false ]

-- The policy lets read at the time `now`.
abbrev pub is_readable : Json → ℕ → Doc → Bool
is_readable j now d = is_authorized d || is_alive j now d

latest-any :
    (now : ℕ) (e : ℤ) (es : List ℤ)
    → ltb_ℤ (pos 0) (latest e es -ℤ pos now) ≡ any (λ x. ltb_ℤ (pos now) x) (e ∷ es)
unfolding latest
latest-any now e [] = ground (arith, -ℤ_parts e (pos now))
latest-any now e (f ∷ es) = latest-any now (max_ℤ e f) es ∙ ground arith

module _ (j : Json) (now : ℕ) where
  field_is-read :
      (v : String) (d : Doc) → IsRule j d → field_is "read" v d ≡ ok (has_value "read" v d)
  field_is-read v d r = ground (arith, r.read_get)

  field_is-share :
      (v : String) (d : Doc) → IsRule j d → field_is "share" v d ≡ ok (has_value "share" v d)
  field_is-share v d r = ground (arith, r.share_get)

  any_of-any :
      (p : Doc → Result Bool) (q : Doc → Bool) (ds : List Doc)
      → ((d : Doc) → IsRule j d → p d ≡ ok (q d))
      → All (IsRule j) ds
      → any_of p ds ≡ ok (any q ds)
  unfolding any_of
  any_of-any p q [] h a = refl
  any_of-any p q (d ∷ ds) h a = ground (arith, h d a.0, any_of-any p q ds h a.1)

  reads_until :
      (ds : List Doc)
      → All (IsRule j) ds
      → All (λ d. field_is "read" "expiration-date" d ≡ ok (is_until d)) ds
  reads_until [] a = tt
  reads_until (d ∷ ds) a = (field_is-read "expiration-date" d a.0, reads_until ds a.1)

  -- The deadlines of the policies that have one, and whether one of them is after `now`.
  expirations-alive :
      (ds : List Doc)
      → All (IsRule j) ds
      → (es : List ℤ) × (expirations_of j (select is_until ds) ≡ ok es)
        × (any (λ e. ltb_ℤ (pos now) e) es ≡ any (is_alive j now) ds)
  expirations-alive [] a = ([], refl, refl)
  expirations-alive (d ∷ ds) a = elim (Bool-cases (is_until d)) [
    | inl t ↦
        let (e, h) = a.0.deadline t in
        let (es, k, l) = expirations-alive ds a.1 in rw t ((e ∷ es, rw (h, k) refl, rw (h, l) refl))
    | inr n ↦ rw n (expirations-alive ds a.1)
  ]

  -- Reading is granted by the policies that authorize it, or whose deadline is after `now`.
  permission_until-any :
      (write share : Bool) (ds : List Doc) (es : List ℤ)
      → any (λ e. ltb_ℤ (pos now) e) es ≡ any (is_alive j now) ds
      → (permission_until write share now es).read ≡ any (is_alive j now) ds
  unfolding permission_until
  permission_until-any write share ds [] h = h
  permission_until-any write share ds (e ∷ es) h = latest-any now e es ∙ h

  any-readable :
      (ds : List Doc)
      → any (is_readable j now) ds ≡ (any is_authorized ds || any (is_alive j now) ds)
  any-readable [] = refl
  any-readable (d ∷ ds) = ground (arith, any-readable ds)

  readable_of_authorized :
      (ds : List Doc) → any is_authorized ds ≡ true → any (is_readable j now) ds ≡ true
  readable_of_authorized ds h = any-readable ds ∙ rw h refl

  readable_of_alive :
      (ds : List Doc)
      → any is_authorized ds ≡ false
      → any (is_readable j now) ds ≡ any (is_alive j now) ds
  readable_of_alive ds h = any-readable ds ∙ rw h refl

  write_until :
      (write share : Bool) (es : List ℤ) → (permission_until write share now es).write ≡ write
  unfolding permission_until
  write_until write share [] = refl
  write_until write share (e ∷ es) = refl

  share_until :
      (write share : Bool) (es : List ℤ) → (permission_until write share now es).share ≡ share
  unfolding permission_until
  share_until write share [] = refl
  share_until write share (e ∷ es) = refl

  abbrev pub is_some : List Doc → Bool
  is_some [] = false
  is_some (d ∷ ds) = true

  permission_of-cases :
      (write : Bool) (ds : List Doc) (es : List ℤ)
      → All (IsRule j) ds
      → expirations_of j (select is_until ds) ≡ ok es
      → permission_of j now write ds
        ≡ ok (
            if any is_authorized ds
            then record { write = write; read = true; share = any is_shared ds; expiration = none }
            else permission_until write (any is_shared ds) now es)
  unfolding permission_of
  permission_of-cases write ds es a k = ground (
    arith,
    any_of-any (field_is "read" "authorized") is_authorized ds (field_is-read "authorized") a,
    any_of-any (field_is "share" "authorized") is_shared ds (field_is-share "authorized") a,
    filter_docs-select (field_is "read" "expiration-date") is_until ds (reads_until ds a),
    k,
  )

  -- Policies that can be read give a permission: reading by a policy that authorizes it or whose
  -- deadline is after `now`, sharing by a policy that authorizes it, writing as asked if there is
  -- a policy at all.
  pub get_permission-readable :
      (write : Bool) (ds : List Doc)
      → All (IsRule j) ds
      → (p : PermissionsResp) × (get_permission j now write ds ≡ ok p)
        × (p.read ≡ any (is_readable j now) ds)
        × (p.share ≡ any is_shared ds)
        × (p.write ≡ (write && is_some ds))
  unfolding get_permission
  get_permission-readable write [] a = (no_permission false false, refl, refl, refl, ground arith)
  get_permission-readable write (d ∷ ds) a =
      let (es, k, l) = expirations-alive (d ∷ ds) a in
      let found = permission_of-cases write (d ∷ ds) es a k in
      elim (Bool-cases (any is_authorized (d ∷ ds))) [
        | inl t ↦ (
          record { write = write; read = true; share = any is_shared (d ∷ ds); expiration = none },
          rw t at found,
          sym (readable_of_authorized (d ∷ ds) t),
          refl,
          ground arith,
        )
        | inr n ↦ (
          permission_until write (any is_shared (d ∷ ds)) now es,
          rw n at found,
          permission_until-any write _ (d ∷ ds) es l ∙ sym (readable_of_alive (d ∷ ds) n),
          share_until _ _ es,
          write_until write (any is_shared (d ∷ ds)) es ∙ ground arith,
        )
      ]
