-- ===== src/Security/AccessScope.antt =====
-- app/services/security/access_scope.py: the documents that an actor may see, and the scope that a
-- request is reduced to. In a row or an actor an absent text is empty, as `or ""` reads it.
use multi_agent_rag_local.Orchestration.Timeout.{◌>>=◌}
use multi_agent_rag_local.Security.Rbac.{can}
use multi_agent_rag_local.Domain.{AccessScope, RequestActor, RequestScope}
use multi_agent_rag_local.Orchestration.Timeout.{permission_error, value_error, err, ok, Result}
use multi_agent_rag_local.Common.{
  String, Bool, true, false, not, ◌&&◌, ◌||◌, Option, none, some, List, [], ◌∷◌, map, ◌==◌,
  if◌then◌else◌, or_default, filter, contains, intersection, meets, difference,
}
pub mod Visible
pub mod Resolved

-- `str.strip`, `str.lower`, and what pathlib says of paths, which are texts here: `resolve` fails for a
-- text that names no path.
pub record PathTools : Type 0 where
  pub strip : String → String
  pub lower : String → String
  pub resolve : String → Option String
  pub is_under_path : (path root : String) → Bool
  pub is_parent : (root path : String) → Bool
  pub docs_root : String
  -- The folder of one user's uploads.
  pub upload_root : String → String

-- The mapping that stands for an actor.
pub record Actor : Type 0 where
  pub user_id : String
  pub tenant_id : String
  pub role : String
  pub permissions : List String
  pub acl_tags : List String

pub record DocumentRow : Type 0 where
  pub source : String
  pub document_id : String
  pub tenant_id : String
  pub owner_user_id : String
  pub visibility : String
  pub acl_tags : List String

pub record Viewer : Type 0 where
  pub user_id : String
  pub tenant_id : String
  pub role : String
  pub acl_tags : List String
  pub cross_tenant : Bool
  pub upload_root : Option String

-- `a or b`, for texts.
abbrev pub or_text : String → String → String
or_text a b = if a == "" then b else a

abbrev pub is_empty : List String → Bool
is_empty [] = true
is_empty (_ ∷ _) = false

module _ (t : PathTools) where
  open t use {strip, lower}

  unfoldable pub viewer_from : Actor → Viewer
  viewer_from actor =
      let user_id = strip actor.user_id in
      let role = lower (strip (or_text actor.role "viewer")) in
      record {
        user_id = user_id;
        tenant_id = strip (or_text actor.tenant_id user_id);
        role = role;
        acl_tags = actor.acl_tags;
        cross_tenant =
            role == "admin"
            && (contains "*" actor.permissions || contains "tenant:cross_read" actor.permissions);
        upload_root = if user_id == "" then none else some (t.upload_root user_id);
      }

  unfoldable pub resolved_source : DocumentRow → Option String
  resolved_source row =
      let source = strip row.source in if source == "" then none else t.resolve source

  unfoldable pub within_reach : DocumentRow → Viewer → Bool
  within_reach row viewer =
      let row_tenant = strip row.tenant_id in
      if viewer.cross_tenant
      then true
      else if not (row_tenant == "") && not (row_tenant == viewer.tenant_id)
      then false
      else is_empty row.acl_tags || meets row.acl_tags viewer.acl_tags

  abbrev in_uploads : Option String → String → Bool
  in_uploads none path = false
  in_uploads (some root) path = t.is_parent root path

  unfoldable pub is_owned_by : DocumentRow → String → Viewer → Bool
  is_owned_by row path viewer =
      let owner = strip row.owner_user_id in
      owner == viewer.user_id || (owner == "" && in_uploads viewer.upload_root path)

  unfoldable pub is_admin_of : DocumentRow → Viewer → Bool
  is_admin_of row viewer =
      let row_tenant = strip row.tenant_id in
      viewer.role == "admin"
      && (viewer.cross_tenant || (not (row_tenant == "") && row_tenant == viewer.tenant_id))

  unfoldable pub is_visible_to : DocumentRow → String → Viewer → Bool
  unfolding is_owned_by is_admin_of
  is_visible_to row path viewer =
      if t.is_under_path path t.docs_root
      then true
      else if lower (strip (or_text row.visibility "private")) == "public"
      then true
      else is_owned_by row path viewer || is_admin_of row viewer

  -- One turn of the loop of `list_visible_document_rows`.
  unfoldable pub is_listed : Viewer → DocumentRow → Bool
  unfolding resolved_source within_reach is_visible_to
  is_listed viewer row = elim (resolved_source row) [
    | none ↦ false
    | some path ↦ within_reach row viewer && is_visible_to row path viewer
  ]

  unfoldable pub list_visible_document_rows : Actor → List DocumentRow → List DocumentRow
  unfolding is_listed viewer_from
  list_visible_document_rows actor rows = filter (is_listed (viewer_from actor)) rows

  -- `_intersect_requested`
  unfoldable pub intersect_requested : List String → Option (List String) → Result (List String)
  intersect_requested visible none = ok visible
  intersect_requested visible (some requested) =
      let normalized = filter (λ v. not (v == "")) (map strip requested) in
      if is_empty (difference normalized visible)
      then ok normalized
      else err (permission_error "requested scope contains unauthorized values")

  unfoldable pub rows_matching_requested_acl :
      List DocumentRow → List String → String → List DocumentRow
  rows_matching_requested_acl rows requested_acl role =
      filter (λ row. is_empty row.acl_tags || meets row.acl_tags requested_acl || role == "admin")
        rows

  -- `_field_values`, for one field.
  unfoldable pub field_values : (DocumentRow → String) → List DocumentRow → List String
  field_values field rows = filter (λ v. not (v == "")) (map (λ row. strip (field row)) rows)

-- `DEFAULT_CONTEXT_FIELDS`
abbrev pub default_context_fields : List String
default_context_fields =
    "content" ∷ "source" ∷ "document_id" ∷ "version" ∷ "page" ∷ "chunk_id" ∷ "image_id"
    ∷ "artifact_uri" ∷ []

unfoldable pub allowed_fields : Option (List String) → Result (List String)
allowed_fields none = ok default_context_fields
allowed_fields (some requested) =
    let allowed = intersection requested default_context_fields in
    if is_empty allowed
    then err (permission_error "requested scope contains no authorized context fields")
    else ok allowed

-- The validator of `AccessScope` on its identity.
unfoldable pub validated_scope : (strip : String → String) → AccessScope → Result AccessScope
validated_scope strip scope =
    if strip scope.tenant_id == "" || strip scope.user_id == "" || strip scope.role == ""
    then err (value_error "scope identity must not be blank")
    else ok scope

module _ (t : PathTools) (document_provider : Actor → List DocumentRow) where
  open t use {strip, lower}

  -- `resolve`, once the actor is authenticated and may read documents.
  unfoldable pub scope_for : Actor → RequestScope → List String → Result AccessScope
  unfolding rows_matching_requested_acl field_values validated_scope
  scope_for actor requested_scope requested_acl =
      let scoped_rows =
        rows_matching_requested_acl t (document_provider actor) requested_acl actor.role in
      do
        sources ←
            intersect_requested t (field_values t (λ row. row.source) scoped_rows)
              requested_scope.allowed_sources
        documents ←
            intersect_requested t (field_values t (λ row. row.document_id) scoped_rows)
              requested_scope.document_ids
        fields ← allowed_fields requested_scope.allowed_fields
        validated_scope strip (record {
          tenant_id = actor.tenant_id;
          user_id = actor.user_id;
          role = actor.role;
          permissions = actor.permissions;
          document_ids = documents;
          allowed_sources = sources;
          acl_tags = requested_acl;
          allowed_fields = fields;
        })

  abbrev pub actor_dict : RequestActor → List String → Actor
  actor_dict actor requested_acl =
      let user_id = strip (or_default "" actor.user_id) in
      record {
        user_id = user_id;
        tenant_id = strip (or_text (or_default "" actor.tenant_id) user_id);
        role = lower (strip (or_text (or_default "" actor.role) "viewer"));
        permissions = actor.permissions;
        acl_tags = requested_acl;
      }

  unfoldable pub resolve : Option RequestActor → RequestScope → Result AccessScope
  unfolding scope_for
  resolve none requested_scope = err (permission_error "authenticated user identity is required")
  resolve (some actor) requested_scope =
      let requested_acl = or_default [] requested_scope.acl_tags in
      let d = actor_dict actor requested_acl in
      if d.user_id == ""
      then err (permission_error "authenticated user identity is required")
      else if not (can "document:read" (lower d.role))
          && not (contains "document:read" actor.permissions)
      then err (permission_error "document read permission is required")
      else scope_for d requested_scope requested_acl
