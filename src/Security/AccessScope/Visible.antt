-- ===== src/Security/AccessScope/Visible.antt =====
-- access_scope.py: which rows are listed.
use multi_agent_rag_local.Security.AccessScope.{
  is_empty, viewer_from, Actor, DocumentRow, Viewer, is_listed, list_visible_document_rows,
  within_reach, PathTools,
}
use multi_agent_rag_local.Common.{In-filter, In, ◌≡◌, ◌⊎◌, true, false, List, arith, eq_iff, meets}

module _ (t : PathTools) where
  -- What keeps a row within the tenant and the tags of a viewer.
  pub record IsWithin (viewer : Viewer) (row : DocumentRow) : Type 0 where
    pub tenant : (t.strip row.tenant_id ≡ "") ⊎ (t.strip row.tenant_id ≡ viewer.tenant_id)
    pub acl : (is_empty row.acl_tags ≡ true) ⊎ (meets row.acl_tags viewer.acl_tags ≡ true)

  within_reach-IsWithin :
      (viewer : Viewer) (row : DocumentRow)
      → viewer.cross_tenant ≡ false
      → within_reach t row viewer ≡ true
      → IsWithin viewer row
  unfolding within_reach
  within_reach-IsWithin viewer row one h =
      ground
        (arith, eq_iff (t.strip row.tenant_id) "", eq_iff (t.strip row.tenant_id) viewer.tenant_id)

  listed-reach :
      (viewer : Viewer) (row : DocumentRow)
      → is_listed t viewer row ≡ true
      → within_reach t row viewer ≡ true
  unfolding is_listed
  listed-reach viewer row h = ground arith

  -- Whoever is no administrator with the cross-tenant permission sees no row of another tenant and no
  -- row whose tags all differ from the actor's, not even a public one.
  pub list_visible-IsWithin :
      (actor : Actor) (rows : List DocumentRow) (row : DocumentRow)
      → (viewer_from t actor).cross_tenant ≡ false
      → In row (list_visible_document_rows t actor rows)
      → In row rows × IsWithin (viewer_from t actor) row
  unfolding list_visible_document_rows
  list_visible-IsWithin actor rows row one h =
      let (i, e) = In-filter (is_listed t (viewer_from t actor)) rows h in
      (
        i,
        within_reach-IsWithin (viewer_from t actor) row one
            (listed-reach (viewer_from t actor) row e),
      )
