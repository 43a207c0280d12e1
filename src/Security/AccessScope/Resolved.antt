-- ===== src/Security/AccessScope/Resolved.antt =====
-- access_scope.py: what a resolved scope grants.
use mathlib.Core.Bool.{false≢true}
use multi_agent_rag_local.Privacy.Dlp.{evidence_is_authorized}
use multi_agent_rag_local.Privacy.Dlp.Boundary.{evidence_is_authorized_iff, is_user_document}
use multi_agent_rag_local.Security.Rbac.{can}
use multi_agent_rag_local.Orchestration.Timeout.{Result-cases, err-ne-ok, ok-injective}
use multi_agent_rag_local.Domain.{EvidenceItem, RequestActor, AccessScope, RequestScope}
use multi_agent_rag_local.Security.AccessScope.{
  actor_dict, resolve, default_context_fields, is_empty, scope_for, validated_scope, ok,
  allowed_fields, field_values, intersect_requested, rows_matching_requested_acl, DocumentRow,
  Actor, PathTools,
}
use multi_agent_rag_local.Common.{
  ap, ◌∙◌, ◌⊎◌, ◌&&◌, or_default, contains-intersection, contains-In, difference-empty, In-filter,
  In-map, refl, sym, inl, inr, not, ◌||◌, [], ◌∷◌, map, arith, ◌==◌, Bool-cases, filter,
  intersection, difference, In, String, ◌≡◌, true, Option, none, some, List, contains,
}

module _ (t : PathTools) (document_provider : Actor → List DocumentRow) where
  -- Everything that the scope names stands in a row that the provider shows to the actor.
  pub record IsGrantedBy (actor : Actor) (requested : RequestScope) (scope : AccessScope)
      : Type 0 where
    pub documents :
        (d : String)
        → contains d scope.document_ids ≡ true
        → (row : DocumentRow) × In row (document_provider actor) × (t.strip row.document_id ≡ d)
    pub sources :
        (s : String)
        → contains s scope.allowed_sources ≡ true
        → (row : DocumentRow) × In row (document_provider actor) × (t.strip row.source ≡ s)
    pub fields :
        (f : String)
        → contains f scope.allowed_fields ≡ true
        → contains f default_context_fields ≡ true
    pub same_user : scope.user_id ≡ actor.user_id
    pub same_tenant : scope.tenant_id ≡ actor.tenant_id

  field_values-row :
      (field : DocumentRow → String) (rows : List DocumentRow) (v : String)
      → contains v (field_values t field rows) ≡ true
      → (row : DocumentRow) × In row rows × (t.strip (field row) ≡ v)
  unfolding field_values
  field_values-row field rows v h =
      In-map (λ row. t.strip (field row)) rows (In-filter _ _ (contains-In v _ h)).0

  is_empty-nil : (xs : List String) → is_empty xs ≡ true → xs ≡ []
  is_empty-nil [] h = refl
  is_empty-nil (x ∷ xs) h = cc

  intersect_requested-visible :
      (visible : List String) (requested : Option (List String)) {granted : List String}
      (v : String)
      → intersect_requested t visible requested ≡ ok granted
      → contains v granted ≡ true
      → contains v visible ≡ true
  unfolding intersect_requested
  intersect_requested-visible visible none v e h =
      let same : visible ≡ _ = ok-injective e in rw same h
  intersect_requested-visible visible (some requested) v e h =
      let wanted = filter (λ v. not (v == "")) (map t.strip requested) in
      elim (Bool-cases (is_empty (difference wanted visible))) [
        | inl a ↦
            let same : wanted ≡ _ = ok-injective (rw a at e) in
            difference-empty v wanted visible (is_empty-nil (difference wanted visible) a)
              (rw same h)
        | inr a ↦ absurd (err-ne-ok (rw a at e))
      ]

  matching_row :
      (actor : Actor) (acl : List String) (field : DocumentRow → String)
      (requested : Option (List String)) {granted : List String} (v : String)
      → intersect_requested t
          (field_values t field
            (rows_matching_requested_acl t (document_provider actor) acl actor.role))
          requested
        ≡ ok granted
      → contains v granted ≡ true
      → (row : DocumentRow) × In row (document_provider actor) × (t.strip (field row) ≡ v)
  unfolding rows_matching_requested_acl
  matching_row actor acl field requested v e h =
      let seen = intersect_requested-visible _ requested v e h in
      let (row, i, same) = field_values-row field _ v seen in
      (row, (In-filter _ (document_provider actor) i).0, same)

  allowed_fields-default :
      (requested : Option (List String)) {granted : List String} (f : String)
      → allowed_fields requested ≡ ok granted
      → contains f granted ≡ true
      → contains f default_context_fields ≡ true
  unfolding allowed_fields
  allowed_fields-default none f e h = ap (contains f) (ok-injective e) ∙ h
  allowed_fields-default (some requested) f e h =
      let allowed = intersection requested default_context_fields in
      elim (Bool-cases (is_empty allowed)) [
        | inl a ↦ absurd (err-ne-ok (rw a at e))
        | inr a ↦
            let same : allowed ≡ _ = ok-injective (rw a at e) in
            ground (arith, contains-intersection f requested default_context_fields, same)
      ]

  validated-same :
      (strip : String → String) (scope : AccessScope) {checked : AccessScope}
      → validated_scope strip scope ≡ ok checked
      → scope ≡ checked
  unfolding validated_scope
  validated-same strip scope e =
      elim (Bool-cases
        (strip scope.tenant_id == "" || strip scope.user_id == "" || strip scope.role == "")) [
          | inl a ↦ absurd (err-ne-ok (rw a at e))
          | inr a ↦ ok-injective (rw a at e)
        ]

  scope_for-IsGrantedBy :
      (actor : Actor) (requested : RequestScope) (acl : List String) {scope : AccessScope}
      → scope_for t document_provider actor requested acl ≡ ok scope
      → IsGrantedBy actor requested scope
  unfolding scope_for
  scope_for-IsGrantedBy actor requested acl e =
      let rows = rows_matching_requested_acl t (document_provider actor) acl actor.role in
      elim (Result-cases (
        intersect_requested t (field_values t (λ row. row.source) rows)
          requested.allowed_sources)) [
            | inr (x, a) ↦ absurd (err-ne-ok (rw (a, scope_for) at e))
            | inl (sources, a) ↦
                elim (Result-cases (
                  intersect_requested t (field_values t (λ row. row.document_id) rows)
                    requested.document_ids)) [
                      | inr (x, b) ↦ absurd (err-ne-ok (rw (a, b, scope_for) at e))
                      | inl (documents, b) ↦
                          elim (Result-cases (allowed_fields requested.allowed_fields)) [
                            | inr (x, c) ↦ absurd (err-ne-ok (rw (a, b, c, scope_for) at e))
                            | inl (fields, c) ↦
                                let same =
                                  validated-same t.strip _ (rw (a, b, c, scope_for) at e) in
                                rw (sym same) (record {
                                  documents = λ d k.
                                      matching_row actor acl (λ row. row.document_id)
                                        requested.document_ids d b k;
                                  sources = λ s k.
                                      matching_row actor acl (λ row. row.source)
                                        requested.allowed_sources s a k;
                                  fields =
                                      λ f k. allowed_fields-default requested.allowed_fields f c k;
                                  same_user = refl;
                                  same_tenant = refl;
                                })
                          ]
                    ]
          ]

  -- A resolved scope carries the identity that was authenticated, names only documents and sources of
  -- rows that the provider shows to that identity, and allows only fields of the default set.
  pub resolve-IsGrantedBy :
      (actor : RequestActor) (requested : RequestScope) {scope : AccessScope}
      → resolve t document_provider (some actor) requested ≡ ok scope
      → IsGrantedBy
          (actor_dict t document_provider actor (or_default [] requested.acl_tags))
          requested
          scope
  unfolding resolve
  resolve-IsGrantedBy actor requested e =
      let d = actor_dict t document_provider actor (or_default [] requested.acl_tags) in
      elim (Bool-cases (d.user_id == "")) [
        | inl a ↦ absurd (err-ne-ok (rw (a, resolve) at e))
        | inr a ↦
            elim (Bool-cases (
              not (can "document:read" (t.lower d.role))
              && not (contains "document:read" actor.permissions))) [
                | inl b ↦ absurd (err-ne-ok (rw (a, b, resolve) at e))
                | inr b ↦
                    scope_for-IsGrantedBy d requested (or_default [] requested.acl_tags)
                      (rw (a, b, resolve) at e)
              ]
      ]

  -- A user document that is authorized under a resolved scope is named by a row that the provider shows
  -- to the actor: by its document id where the scope names documents, else by its source.
  pub resolve-authorized :
      (actor : RequestActor) (requested : RequestScope) {scope : AccessScope} (item : EvidenceItem)
      → resolve t document_provider (some actor) requested ≡ ok scope
      → is_user_document item.layer ≡ true
      → evidence_is_authorized item scope ≡ true
      → let d = actor_dict t document_provider actor (or_default [] requested.acl_tags) in
        (row : DocumentRow) × In row (document_provider d)
        × ((t.strip row.document_id ≡ item.document_id) ⊎ (t.strip row.source ≡ item.source))
  resolve-authorized actor requested {scope} item e user h =
      let g = resolve-IsGrantedBy actor requested e in
      let inside = (evidence_is_authorized_iff item scope user).0 h in
      elim inside.document [
        | inr named ↦ let (row, i, same) = g.documents item.document_id named in (row, i, inl same)
        | inl no_documents ↦ elim inside.source [
          | inr named ↦ let (row, i, same) = g.sources item.source named in (row, i, inr same)
          | inl no_sources ↦ elim inside.bounded [
            | inl some_documents ↦ absurd (false≢true (sym some_documents ∙ no_documents))
            | inr some_sources ↦ absurd (false≢true (sym some_sources ∙ no_sources))
          ]
        ]
      ]
