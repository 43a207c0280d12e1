-- ===== src/Synthesizer/Citations.antt =====
-- app/agents/synthesizer/citations.py: `[E{k}]` markers become `[n]`, numbered by first appearance,
-- and the reference list that the numbers point into. The regular expression reads a text as a list
-- of pieces, plain words or markers.
pub mod Numbering
pub mod Appearance
use multi_agent_rag_local.Common.{
  ℕ, zero, suc, ◌+◌, Bool, true, false, ◌&&◌, Option, none, some, List, [], ◌∷◌, ◌++◌, String, ◌==◌,
  nat_eq, length, get_elem?, contains, if◌then◌else◌,
}
use Prim.Native.String.{◌++◌ as append}
use text.Mathlib.Text.{starts_with}
use multi_agent_rag_local.Domain.{EvidenceItem}

pub data Piece : Type 0 where
  words : String → Piece
  marker : ℕ → Piece

pub data Shown : Type 0 where
  words : String → Shown
  citation : ℕ → Shown

-- `(item.source, item.page)`, compared.
abbrev same_page : Option ℕ → Option ℕ → Bool
same_page none none = true
same_page (some p) (some q) = nat_eq p q
same_page _ _ = false

unfoldable pub same_reference : EvidenceItem → EvidenceItem → Bool
same_reference a b = a.source == b.source && same_page a.page b.page

-- `references` is the numbered list; the dict `numbers` maps the key of each of its items to its
-- number, so the number of a key is found by walking the list.
unfoldable pub number_of : EvidenceItem → List EvidenceItem → ℕ → Option ℕ
number_of item [] n = none
number_of item (r ∷ rs) n =
    let rest = number_of item rs (suc n) in if same_reference r item then some (suc n) else rest

-- `evidence[index - 1]`, where the index is in range.
unfoldable pub evidence_at : List EvidenceItem → ℕ → Option EvidenceItem
evidence_at evidence zero = none
evidence_at evidence (suc i) = get_elem? evidence i

-- `renumber` on an item that is there and survived output filtering.
unfoldable pub assign : EvidenceItem → List EvidenceItem → ℕ × List EvidenceItem
unfolding number_of
assign item references = elim (number_of item references 0) [
  | some n ↦ (n, references)
  | none ↦ (length references + 1, references ++ item ∷ [])
]

-- `allowed is None or item.item_id in allowed`: without ids to keep, every item is kept.
abbrev pub is_allowed : Option (List String) → String → Bool
is_allowed none id = true
is_allowed (some keep_item_ids) id = contains id keep_item_ids

abbrev kept : Option (List String) → Option EvidenceItem → Option EvidenceItem
kept keep_item_ids none = none
kept keep_item_ids (some item) = if is_allowed keep_item_ids item.item_id then some item else none

-- The substitution over the whole text: a marker that is dropped leaves nothing.
module _ (evidence : List EvidenceItem) (keep_item_ids : Option (List String)) where
  unfoldable pub renumber : List Piece → List EvidenceItem → List Shown × List EvidenceItem
  unfolding assign evidence_at
  renumber [] references = ([], references)
  renumber (Piece.words w ∷ ps) references =
      let (shown, final) = renumber ps references in (Shown.words w ∷ shown, final)
  renumber (marker k ∷ ps) references = elim (kept keep_item_ids (evidence_at evidence k)) [
    | none ↦ renumber ps references
    | some item ↦
        let (n, references') = assign item references in
        let (shown, final) = renumber ps references' in (citation n ∷ shown, final)
  ]

-- The parts of Python that the text functions call: `re` reads the markers, `print` writes the pieces
-- back and closes the gaps, `path_name` is `Path(source).name`, `decimal` is `str`, `heading` is the
-- table of headings, `strip_lower` is `strip().lower()`, and `has_chinese` searches for a Chinese
-- character.
pub record TextTools : Type 0 where
  pub pieces : String → List Piece
  pub print : List Shown → String
  pub path_name : String → String
  pub decimal : ℕ → String
  pub heading : String → String
  pub strip_lower : String → String
  pub has_chinese : String → Bool

module _ (t : TextTools) where
  open t use {pieces, print, path_name, decimal, heading}

  unfoldable pub number_evidence_markers :
      String → List EvidenceItem → Option (List String) → String × List EvidenceItem
  number_evidence_markers text evidence keep_item_ids =
      let (shown, references) = renumber evidence keep_item_ids (pieces text) [] in
      (print shown, references)

  abbrev page_label : String → String → Option ℕ → String
  page_label language name none = name
  page_label language name (some page) =
      if language == "zh"
      then append name (append " · 第 " (append (decimal page) " 页"))
      else append name (append " · p. " (decimal page))

  abbrev local_name : String → String
  local_name source = let name = path_name source in if name == "" then source else name

  unfoldable pub reference_label : EvidenceItem → String → String
  reference_label item language =
      let name =
        if starts_with item.source "http://"
        then item.source
        else if starts_with item.source "https://"
        then item.source
        else local_name item.source in
      page_label language name item.page

  reference_lines : ℕ → String → List EvidenceItem → String
  unfolding reference_label
  reference_lines n language [] = ""
  reference_lines n language (item ∷ items) =
      append (append "\n- [" (append (decimal n) (append "] " (reference_label item language))))
        (reference_lines (suc n) language items)

  unfoldable pub render_reference_list : List EvidenceItem → String → String
  unfolding reference_lines
  render_reference_list [] language = ""
  render_reference_list (item ∷ items) language =
      append (append "**" (append (heading language) "**\n"))
        (reference_lines 1 language (item ∷ items))
