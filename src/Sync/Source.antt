-- ===== src/Sync/Source.antt =====
-- app/services/intake_sync.py and app/services/procore_client.py: which items a sync collects. An item of
-- a fixture file is given by what the code reads of it; reading the files and dates is `Fixtures`. The
-- types and lengths that pydantic checks are taken for granted.
use procore_intake_bridge.Base.{
  ℕ, String, Bool, false, ◌&&◌, ◌||◌, not, Option, none, some, List, [], ◌∷◌, ◌++◌, map, ltb,
  length, if◌then◌else◌, str_eq, ◌+◌,
}
use procore_intake_bridge.Exceptions.{Result, returned, raised, value_error, other}
use procore_intake_bridge.Json.{Json}
use procore_intake_bridge.Models.{Instant, DmsaConnection}

pub record FixtureAttachment : Type 0 where
  pub id : String
  pub filename : String
  pub content_type : Option String
  pub source_url : Option String
  pub size_bytes : Option ℕ

-- The texts are `str` of the values; a date that is missing or null is none.
pub record FixtureItem : Type 0 where
  pub id : String
  pub project_id : String
  pub number : String
  pub title : String
  pub status : String
  pub due_date : Option String
  pub received_at : Option String
  pub updated_at : Option String
  pub attachments : List FixtureAttachment
  pub raw : Json

pub record NormalizedRecord : Type 0 where
  pub source_type : String
  pub procore_project_id : String
  pub procore_item_id : String
  pub number : String
  pub title : String
  pub status : String
  pub due_date : Option String
  pub received_at : Option String
  pub updated_at : Option String
  pub attachment_count : ℕ

pub record Fixtures : Type 0 where
  -- `settings.procore_mode == "fixture"`.
  pub is_fixture_mode : Bool
  -- `_load_fixture`.
  pub load_fixture : String → Result (List FixtureItem)
  -- `datetime.fromisoformat(text.replace("Z", "+00:00"))`, none for a `ValueError`.
  pub parse_datetime : String → Option Instant
  -- `date.fromisoformat(text)`, none for a `ValueError`.
  pub parse_date : String → Option Instant

unfoldable pub normalize : String → FixtureItem → NormalizedRecord
normalize source_type item = record {
  source_type = source_type;
  procore_project_id = item.project_id;
  procore_item_id = item.id;
  number = item.number;
  title = item.title;
  status = item.status;
  due_date = item.due_date;
  received_at = item.received_at;
  updated_at = item.updated_at;
  attachment_count = length item.attachments;
}

-- `text in texts`.
unfoldable pub is_among : String → List String → Bool
is_among text [] = false
is_among text (t ∷ ts) = str_eq t text || is_among text ts

unfoldable pub of_project : String → List FixtureItem → List FixtureItem
of_project project_id [] = []
of_project project_id (item ∷ items) =
    let rest = of_project project_id items in
    if str_eq item.project_id project_id then item ∷ rest else rest

module _ (fixtures : Fixtures) where
  open fixtures use {is_fixture_mode, load_fixture, parse_datetime}

  -- Whether an item was updated after an instant; its date is read, and may raise. Dates that are read
  -- have a time zone, as those of the fixtures do: comparing one without raises a TypeError.
  unfoldable pub updated_later : Instant → Option String → Result Bool
  updated_later after none = raised (other "KeyError" "'updated_at'")
  updated_later after (some text) = elim (parse_datetime text) [
    | none ↦ raised (value_error "Invalid isoformat string")
    | some updated ↦ returned (ltb after updated)
  ]

  unfoldable pub keep_later : Instant → List FixtureItem → Result (List FixtureItem)
  unfolding updated_later
  keep_later after [] = returned []
  keep_later after (item ∷ items) =
      let rest = keep_later after items in
      elim (updated_later after item.updated_at) [
        | raised e ↦ raised e
        | returned later ↦ elim rest [
          | raised e ↦ raised e
          | returned kept ↦ returned (if later then item ∷ kept else kept)
        ]
      ]

  -- `_filtered`.
  unfoldable pub filtered : String → Option Instant → List FixtureItem → Result (List FixtureItem)
  unfolding of_project keep_later
  filtered project_id none items = returned (of_project project_id items)
  filtered project_id (some after) items = keep_later after (of_project project_id items)

  -- `list_rfis_for_project` and `list_submittals_for_project`, by their file.
  unfoldable pub list_for_project :
      String → DmsaConnection → String → Option Instant → Result (List FixtureItem)
  unfolding is_among filtered
  list_for_project filename connection project_id updated_after =
      if not is_fixture_mode
      then raised (
          other "LiveProcoreDisabledError"
            "Fixture sync is the only supported sync mode in Phase A2.")
      else if not (is_among project_id connection.permitted_project_ids)
      then raised (value_error "Project is outside this connection's permitted project allowlist.")
      else elim (load_fixture filename) [
        | raised e ↦ raised e
        | returned items ↦ filtered project_id updated_after items
      ]

  -- The items of one tool with their source type, none where the tool is off.
  unfoldable pub collect_tool :
      Bool
      → String
      → String
      → String
      → DmsaConnection
      → String
      → Option Instant
      → Result (List (String × FixtureItem))
  unfolding list_for_project is_among
  collect_tool wanted tool source_type filename connection project_id updated_after =
      if wanted && is_among tool connection.enabled_tools
      then elim (list_for_project filename connection project_id updated_after) [
        | raised e ↦ raised e
        | returned items ↦ returned (map (λ item. (source_type, item)) items)
      ]
      else returned []

  unfoldable pub collect_project :
      DmsaConnection → String → Bool → Bool → Option Instant → Result (List (String × FixtureItem))
  unfolding collect_tool
  collect_project connection project_id sync_rfis sync_submittals updated_after =
      elim (collect_tool sync_rfis "rfis" "rfi" "fake_rfis.json" connection project_id
        updated_after) [
          | raised e ↦ raised e
          | returned rfis ↦
              elim (collect_tool sync_submittals "submittals" "submittal" "fake_submittals.json"
                connection project_id updated_after) [
                  | raised e ↦ raised e
                  | returned submittals ↦ returned (rfis ++ submittals)
                ]
        ]

  unfoldable pub collect_projects :
      DmsaConnection
      → List String
      → Bool
      → Bool
      → Option Instant
      → Result (List (String × FixtureItem))
  unfolding collect_project
  collect_projects connection [] sync_rfis sync_submittals updated_after = returned []
  collect_projects connection (project_id ∷ project_ids) sync_rfis sync_submittals updated_after =
      let rest = collect_projects connection project_ids sync_rfis sync_submittals updated_after in
      elim (collect_project connection project_id sync_rfis sync_submittals updated_after) [
        | raised e ↦ raised e
        | returned items ↦ elim rest [
          | raised e ↦ raised e
          | returned others ↦ returned (items ++ others)
        ]
      ]

  -- `collect_fixture_records`; an item's normalized record and manifest follow from it.
  unfoldable pub collect_fixture_records :
      DmsaConnection
      → Option String
      → Bool
      → Bool
      → Option Instant
      → Result (List (String × FixtureItem))
  unfolding collect_projects
  collect_fixture_records connection none sync_rfis sync_submittals updated_after =
      collect_projects connection connection.permitted_project_ids sync_rfis sync_submittals
        updated_after
  collect_fixture_records connection (some project_id) sync_rfis sync_submittals updated_after =
      collect_projects connection (project_id ∷ []) sync_rfis sync_submittals updated_after

-- `len(manifest)`: each attachment of an item has an entry.
unfoldable pub manifest_length : List (String × FixtureItem) → ℕ
manifest_length [] = 0
manifest_length ((source_type, item) ∷ items) = length item.attachments + manifest_length items
