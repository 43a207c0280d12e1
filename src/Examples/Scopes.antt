-- ===== src/Examples/Scopes.antt =====
-- What an actor is shown, and the context that is built from it.
use multi_agent_rag_local.Knowledge.Context.Winners.{in_group}
use multi_agent_rag_local.Knowledge.Context.Groups.{resolve_conflicts-winner}
use multi_agent_rag_local.Knowledge.Context.Budget.{truncate-cost, cost_from}
use multi_agent_rag_local.Security.AccessScope.Visible.{list_visible-IsWithin, IsWithin}
use multi_agent_rag_local.Examples.Fixtures.{toy_scope, foreign_item, own_item, toy_redactor}
use multi_agent_rag_local.Knowledge.Context.Bundle.{build-IsShown, build, IsShown}
use multi_agent_rag_local.Domain.{EvidenceLayer, EvidenceItem}
use multi_agent_rag_local.Security.AccessScope.{
  list_visible_document_rows, Actor, DocumentRow, PathTools, viewer_from,
}
use multi_agent_rag_local.Knowledge.Context.{overrides, resolve_conflicts, truncate, TextTools}
use Prim.Native.String.{count}
use multi_agent_rag_local.Common.{
  filter, inl, inr, Bool-cases, leb→le, In, ℕ, ◌+◌, ◌≤◌, String, ◌≡◌, refl, false, some, [], ◌∷◌,
  arith, ◌==◌, ltb, leb, nat_eq, if◌then◌else◌, All, here,
}

abbrev toy_paths : PathTools
toy_paths = record {
  strip = λ text. text;
  lower = λ text. text;
  resolve = λ path. some path;
  is_under_path = λ path root. path == root;
  is_parent = λ root path. root == path;
  docs_root = "/docs";
  upload_root = λ user. "/uploads";
}

abbrev own_row : DocumentRow
own_row = record {
  source = "manual.pdf";
  document_id = "manual.pdf";
  tenant_id = "t";
  owner_user_id = "u";
  visibility = "private";
  acl_tags = [];
}

abbrev foreign_row : DocumentRow
foreign_row = record own_row { tenant_id = "other"; visibility = "public" }

abbrev toy_actor : Actor
toy_actor = record {
  user_id = "u";
  tenant_id = "t";
  role = "viewer";
  permissions = [];
  acl_tags = [];
}

list_visible-IsWithin_example :
    In own_row (foreign_row ∷ own_row ∷ [])
    × IsWithin toy_paths (viewer_from toy_paths toy_actor) own_row
unfolding viewer_from list_visible_document_rows
list_visible-IsWithin_example =
    list_visible-IsWithin toy_paths toy_actor (foreign_row ∷ own_row ∷ []) own_row refl here

abbrev toy_text : TextTools
toy_text = record {
  show_number = λ n. if nat_eq n 1 then "1" else "2";
  first_characters = λ n text. if leb (count text) n then text else "";
  rstrip = λ text. text;
  show_notes = λ notes. "notes";
}

toy_clips : (n : ℕ) (text : String) → count (toy_text.first_characters n text) ≤ n
toy_clips n text = elim (Bool-cases (leb (count text) n)) [
  | inl e ↦ rw e (leb→le (count text) n e)
  | inr e ↦ rw e (omega arith)
]

truncate-cost_example :
    let (bounded, truncated) = truncate toy_text (own_item ∷ foreign_item ∷ []) 25 in
    (cost_from toy_text toy_clips (λ text. omega arith) 1 bounded ≤ 25 + 1)
    × (truncated
        ≡ ltb 25
            (cost_from toy_text toy_clips (λ text. omega arith) 1 (own_item ∷ foreign_item ∷ [])))
truncate-cost_example =
    truncate-cost toy_text toy_clips (λ text. omega arith) (own_item ∷ foreign_item ∷ []) 25

abbrev ours : EvidenceItem
ours = record own_item { conflict_group = some "torque" }

abbrev theirs : EvidenceItem
theirs = record ours { item_id = "e9"; layer = EvidenceLayer.web; score = some 900_000 }

resolve_conflicts-winner_example :
    let items = theirs ∷ ours ∷ own_item ∷ [] in
    let kept = (resolve_conflicts items).0 in
    (winner : EvidenceItem) × In winner kept
    × In winner items
    × (winner.conflict_group ≡ some "torque")
    × (overrides theirs winner ≡ false)
    × (filter (in_group "torque") kept ≡ winner ∷ [])
    × ((other : EvidenceItem)
        → In other kept
        → other.conflict_group ≡ some "torque"
        → other ≡ winner)
resolve_conflicts-winner_example =
    resolve_conflicts-winner (theirs ∷ ours ∷ own_item ∷ []) "torque" theirs here refl refl

build-IsShown_example :
    All
      (IsShown toy_redactor toy_text (own_item ∷ foreign_item ∷ []) toy_scope)
      (build toy_redactor toy_text 25 (own_item ∷ foreign_item ∷ []) toy_scope []).evidence
build-IsShown_example =
    build-IsShown toy_redactor toy_text (own_item ∷ foreign_item ∷ []) toy_scope 25 []
