-- ===== src/Assets/Laws/Policies.antt =====
-- The endpoints of access.py, over the policies of the table.
use Prim.Native.Nat.{ℕ}
use Prim.Native.String.{[] as empty, ◌∷◌ as ◌▹◌}
use py_youwol.Prelude.{
  String, Bool, true, false, inl, ◌≡◌, refl, ◌∙◌, ap, Option, none, some, [], ◌∷◌, arith, ◌&&◌,
  ◌==◌, if◌then◌else◌,
}
use py_youwol.Prelude.Int.{pos}
use py_youwol.Prelude.Text.{has, strip_prefix, str, int, int-str, has-str}
use py_youwol.Prelude.Dict.{get, put}
use py_youwol.Prelude.Exec.{Result, ok, err, http, raise, lift, ◌>>=◌, bind_ok}
use py_youwol.DocDb.Models.{Doc, field_of}
use py_youwol.DocDb.Pairs.Cells.{listed}
use py_youwol.Assets.Models.{
  ReadPolicyEnum, forbidden, authorized, owning, expiration_date, SharePolicyEnum, share_forbidden,
  share_authorized, read_value, share_value, read_policy, share_policy, Json, IsJson,
  AccessPolicyBody, AccessPolicyResp, Configuration, number_of,
}
use py_youwol.Assets.Docs.{policy_of_doc}
use py_youwol.Assets.Store.{public_owner, create_policy, delete_policy}
use py_youwol.Assets.Access.{
  doc_access, put_access_policy, delete_access_policy, policy_or_404, get_specific_policy,
}
use py_youwol.Assets.Laws.Tables.{
  IsAssets, asset_at, policy_at, db_get-asset_at, query_policies-policy_at, policy_at-create_policy,
  create_policy-upsert, create_policy-IsAssets, doc_access-IsPolicyDoc, policy_at-delete_policy,
  delete_policy-select, delete_policy-IsAssets,
}

read_policy-value : (r : ReadPolicyEnum) → read_policy (read_value r) ≡ ok r
unfolding read_policy
read_policy-value forbidden = refl
read_policy-value authorized = refl
read_policy-value owning = refl
read_policy-value expiration_date = refl

share_policy-value : (r : SharePolicyEnum) → share_policy (share_value r) ≡ ok r
unfolding share_policy
share_policy-value share_forbidden = refl
share_policy-value share_authorized = refl

strip-none : (s : String) → has 45 s ≡ false → strip_prefix "-" s ≡ none
unfolding has strip_prefix
strip-none empty h = refl
strip-none (c ▹ s) h = ground arith

number_of-digits :
    (s : String) (n : ℕ) → strip_prefix "-" s ≡ none → int s ≡ some n → number_of s ≡ ok (pos n)
unfolding number_of
number_of-digits s n h e = rw (number_of, h, e) refl

pub number_of-str : (n : ℕ) → number_of (str n) ≡ ok (pos n)
number_of-str n =
    number_of-digits (str n) n (strip-none (str n) (has-str 45 n (inl (omega arith)))) (int-str n)

-- What a policy of the table stands for, if it is there.
abbrev pub specific : (j : Json) → Option Doc → Result (AccessPolicyResp j.Parameters)
specific j none = err (http 404)
specific j (some doc) = policy_of_doc j doc

-- What was put, as it is returned.
abbrev pub as_put : (j : Json) → AccessPolicyBody j.Parameters → ℕ → AccessPolicyResp j.Parameters
as_put j body now = record {
  read = body.read;
  share = body.share;
  parameters = body.parameters;
  timestamp = some (pos now);
}

abbrev pub doc_put : (j : Json) → String → String → String → AccessPolicyBody j.Parameters → ℕ → Doc
doc_put j a related_id g body now =
    doc_access a related_id g (read_value body.read) (share_value body.share)
      (j.dumps body.parameters) now

module _ (j : Json) where
  -- A policy that is written is read back, whatever text its parameters are.
  pub policy_of_doc-doc_access :
      (a related_id g : String) (read : ReadPolicyEnum) (share : SharePolicyEnum) (text : String)
      → (p : j.Parameters) → j.loads text ≡ ok p
      → (now : ℕ)
      → policy_of_doc j (
          put "owner" public_owner
            (doc_access a related_id g (read_value read) (share_value share) text now))
        ≡ ok (record { read = read; share = share; parameters = p; timestamp = some (pos now) })
  unfolding policy_of_doc bind_ok
  policy_of_doc-doc_access a related_id g read share text p e now =
      rw (read_policy-value read, e, share_policy-value share, number_of-str now) refl

  specific-or_404 :
      (o : Option Doc) (s : Configuration) → policy_or_404 j (listed o) s ≡ (specific j o, s)
  unfolding raise lift
  specific-or_404 none s = refl
  specific-or_404 (some doc) s = refl

  pub specific-if :
      (test : Bool) (doc : Doc) (o : Option Doc)
      → specific j (if test then some (put "owner" public_owner doc) else o)
        ≡ (if test then policy_of_doc j (put "owner" public_owner doc) else specific j o)
  specific-if true doc o = refl
  specific-if false doc o = refl

  pub specific-gone :
      (test : Bool) (o : Option Doc)
      → specific j (if test then none else o) ≡ (if test then err (http 404) else specific j o)
  specific-gone true o = refl
  specific-gone false o = refl

  module _ (s : Configuration) (t : IsAssets s) where
    pub get_specific_policy-specific :
        (a g : String) → get_specific_policy j a g s ≡ (specific j (policy_at a g s), s)
    unfolding get_specific_policy ◌>>=◌
    get_specific_policy-specific a g =
        rw (query_policies-policy_at s t a g) (specific-or_404 (policy_at a g s) s)

    module _ (a g : String) (body : AccessPolicyBody j.Parameters) (now : ℕ) where
      pub put_access_policy-create :
          (asset : Doc) (related_id : String)
          → asset_at a s ≡ some asset
          → get "related_id" asset ≡ some related_id
          → put_access_policy j a g body now s ≡ create_policy (doc_put j a related_id g body now) s
      unfolding put_access_policy ◌>>=◌ lift
      put_access_policy-create asset related_id e r =
          rw (db_get-asset_at s t a, e, field_of, r) refl

  module _ (s : Configuration) (t : IsAssets s) where
    module _ (a g : String) (body : AccessPolicyBody j.Parameters) (now : ℕ) where
      -- The policy of a group for an asset that exists is put, and read back as it was given; no
      -- other policy is read differently.
      pub put_access_policy-get_specific_policy :
          IsJson j
          → (asset : Doc) (related_id : String) → asset_at a s ≡ some asset
          → get "related_id" asset ≡ some related_id
          → (b h : String)
          → ((put_access_policy j a g body now s).0 ≡ ok tt)
            × ((get_specific_policy j b h (put_access_policy j a g body now s).1).0 ≡ (
                if a == b && g == h
                then ok (as_put j body now)
                else (get_specific_policy j b h s).0))
      put_access_policy-get_specific_policy law asset related_id e r b h =
          let doc = doc_put j a related_id g body now in
          let kept =
            create_policy-IsAssets s t a g doc refl refl (doc_access-IsPolicyDoc _ _ _ _ _ _ _) in
          rw (put_access_policy-create s t a g body now asset related_id e r) (
            ap (λ z. z.0) (create_policy-upsert s t a g doc refl refl),
            ap (λ z. z.0) (get_specific_policy-specific (create_policy doc s).1 kept b h)
                ∙ ap (specific j) (policy_at-create_policy s t a g doc refl refl b h)
                ∙ specific-if (a == b && g == h) doc (policy_at b h s)
                ∙ rw
                    (
                      policy_of_doc-doc_access a related_id g body.read body.share
                          (j.dumps body.parameters) body.parameters
                          (law.loads-dumps body.parameters) now,
                      get_specific_policy-specific s t b h,
                    )
                    refl,
          )

    -- Putting a policy for an asset that does not exist is a 404, and nothing changes.
    pub put_access_policy-missing :
        (a g : String) (body : AccessPolicyBody j.Parameters) (now : ℕ)
        → asset_at a s ≡ none
        → put_access_policy j a g body now s ≡ (err (http 404), s)
    unfolding put_access_policy ◌>>=◌
    put_access_policy-missing a g body now e = rw (db_get-asset_at s t a, e) refl

    -- A deleted policy is not found, also when it was not there; the others are read as before.
    pub delete_access_policy-get_specific_policy :
        (a g b h : String)
        → ((delete_access_policy a g s).0 ≡ ok tt)
          × ((get_specific_policy j b h (delete_access_policy a g s).1).0
              ≡ (if a == b && g == h then err (http 404) else (get_specific_policy j b h s).0))
    unfolding delete_access_policy
    delete_access_policy-get_specific_policy a g b h =
        let key : Doc = ("asset_id", a) ∷ ("consumer_group_id", g) ∷ [] in
        let kept = delete_policy-IsAssets s t a g key refl refl in
        (
          ap (λ z. z.0) (delete_policy-select s t a g key refl refl),
          ap (λ z. z.0) (get_specific_policy-specific (delete_policy key s).1 kept b h)
              ∙ ap (specific j) (policy_at-delete_policy s t a g key refl refl b h)
              ∙ rw (get_specific_policy-specific s t b h)
                  (specific-gone (a == b && g == h) (policy_at b h s)),
        )
