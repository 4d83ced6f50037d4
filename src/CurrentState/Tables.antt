-- ===== src/CurrentState/Tables.antt =====
-- The tables that the current-state resolver reads and writes: cb_current_state_anchors of
-- migrations/030_add_current_state_anchors.sql and 037_add_current_state_identity.sql, and the
-- current-state columns of content_items. `state_reason`, `valid_until` and the stamps of rows that
-- nothing reads are left out. Times are seconds of the database's clock.
use context_brain_memory_lab.Prelude.{
  ℕ, String, Bool, true, false, not, ◌&&◌, ◌||◌, Option, none, some, List, [], ◌∷◌, ltb, nat_eqb,
  if◌then◌else◌,
}
use text.Mathlib.Text.{◌==◌}
use context_brain_memory_lab.Prelude.Names.{contains}

pub record AnchorRow : Type 0 where
  pub anchor_id : String
  pub workspace_id : String
  pub memory_type : String
  pub scope : String
  pub state_identity : Option String
  pub content_id : Option String
  pub supersedes_content_id : Option String
  pub valid_from : ℕ
  pub canonical_rank : ℕ
  pub state_status : String
  pub set_by : String

pub record ItemRow : Type 0 where
  pub content_id : String
  pub is_current : Option Bool
  pub current_state_scope : Option String
  pub state_identity : Option String
  pub cs_supersedes_content_id : Option String

pub record StateTables : Type 0 where
  pub anchors : List AnchorRow
  pub items : List ItemRow

-- What an anchor is looked up by.
pub record StateKey : Type 0 where
  pub workspace_id : String
  pub memory_type : String
  pub state_identity : String

-- `column = value`, which no NULL satisfies
abbrev pub column_is : String → Option String → Bool
column_is t none = false
column_is t (some s) = s == t

abbrev pub has_key : StateKey → AnchorRow → Bool
has_key k a =
    a.workspace_id == k.workspace_id
    && a.memory_type == k.memory_type
    && column_is k.state_identity a.state_identity

abbrev pub is_active : StateKey → AnchorRow → Bool
is_active k a = has_key k a && a.state_status == "active"

-- The active anchor of the content.
unfoldable pub find_same : StateKey → String → List AnchorRow → Option AnchorRow
find_same k c [] = none
find_same k c (a ∷ anchors) =
    if is_active k a && column_is c a.content_id then some a else find_same k c anchors

-- `ORDER BY canonical_rank ASC, valid_from DESC`
abbrev pub precedes : AnchorRow → AnchorRow → Bool
precedes a b =
    ltb a.canonical_rank b.canonical_rank
    || nat_eqb a.canonical_rank b.canonical_rank && ltb b.valid_from a.valid_from

abbrev pub first_of : Option AnchorRow → AnchorRow → AnchorRow
first_of none a = a
first_of (some b) a = if precedes b a then b else a

abbrev is_set : Option String → Bool
is_set none = false
is_set (some t) = true

-- The SELECT of the anchor that is superseded.
unfoldable pub previous_anchor : StateKey → List AnchorRow → Option AnchorRow
previous_anchor k [] = none
previous_anchor k (a ∷ anchors) =
    let rest = previous_anchor k anchors in
    if is_active k a && is_set a.content_id then some (first_of rest a) else rest

-- The UPDATE that supersedes the active anchors of other contents and of none.
unfoldable pub supersede : StateKey → String → List AnchorRow → List AnchorRow
supersede k c [] = []
supersede k c (a ∷ anchors) =
    (if is_active k a && not (column_is c a.content_id)
      then record a { state_status = "superseded" }
      else a)
    ∷ supersede k c anchors

unfoldable pub has_item : String → List ItemRow → Bool
has_item c [] = false
has_item c (i ∷ items) = if i.content_id == c then true else has_item c items

-- `UPDATE content_items SET current_state_scope = …`
unfoldable pub group_item : String → String → List ItemRow → List ItemRow
group_item scope c [] = []
group_item scope c (i ∷ items) =
    (if i.content_id == c then record i { current_state_scope = some scope } else i)
    ∷ group_item scope c items

-- The UPDATE of the content that was current.
unfoldable pub retire_item : String → String → List ItemRow → List ItemRow
retire_item scope c [] = []
retire_item scope c (i ∷ items) =
    (if i.content_id == c
      then record i { is_current = some false; current_state_scope = some scope }
      else i)
    ∷ retire_item scope c items

-- The UPDATE of the content that is current.
unfoldable pub promote_item : String → String → Option String → String → List ItemRow → List ItemRow
promote_item scope identity supersedes_id c [] = []
promote_item scope identity supersedes_id c (i ∷ items) =
    (if i.content_id == c
      then record i {
        is_current = some true;
        current_state_scope = some scope;
        state_identity = some identity;
        cs_supersedes_content_id = supersedes_id;
      }
      else i)
    ∷ promote_item scope identity supersedes_id c items

-- The `CHECK` on memory_type.
abbrev pub memory_types : List String
memory_types =
    "milestone" ∷ "decision" ∷ "principle" ∷ "anchor" ∷ "evidence" ∷ "plan_roadmap" ∷ "raw_memory"
    ∷ []

-- The new row passes the constraints of the table.
abbrev pub can_insert : StateKey → String → List ItemRow → Bool
can_insert k c items = contains k.memory_type memory_types && has_item c items
