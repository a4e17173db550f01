-- ===== src/Sync/Tests.antt =====
-- The theorems on app/services/intake_sync.py at a sample fixture.
use procore_intake_bridge.Sync.Rows.{content_of}
use procore_intake_bridge.Base.{◌≡◌, refl, true, false, none, some, List, [], ◌∷◌, All, String}
use procore_intake_bridge.Json.{Json}
use procore_intake_bridge.Exceptions.{returned}
use procore_intake_bridge.Memory.{memory}
use procore_intake_bridge.Polling.{SyncRequest}
use procore_intake_bridge.Sync.Source.{
  FixtureItem, Fixtures, collect_fixture_records, collect_projects, collect_project, collect_tool,
  list_for_project, filtered, of_project, is_among,
}
use procore_intake_bridge.Sync.Store.{RecordContent, SourceKey, Storage, Keys}
use procore_intake_bridge.Sync.Run.{summary_of}
use procore_intake_bridge.Sync.Connection.{SyncOptions, sync_connection, worker_sync}
use procore_intake_bridge.Sync.Refinement.{source_map, put_all}
use procore_intake_bridge.Sync.Interface.{worker_sync_lem}
use procore_intake_bridge.Sync.Total.{IsReadable, sync_connection_total}
use procore_intake_bridge.Sync.Permitted.{IsPermitted, collect-IsPermitted}
use procore_intake_bridge.Samples.{noon, sample_connection, sample_session}

abbrev door : FixtureItem
door = record {
  id = "1";
  project_id = "project-1";
  number = "RFI-1";
  title = "Door";
  status = "open";
  due_date = none;
  received_at = some "2026-01-01";
  updated_at = some "2026-01-02";
  attachments =
      record {
        id = "7";
        filename = "door.pdf";
        content_type = none;
        source_url = none;
        size_bytes = none;
      }
      ∷ [];
  raw = Json.null;
}

-- A file with the item, twice, and one of another project.
abbrev sample_fixtures : Fixtures
sample_fixtures = record {
  is_fixture_mode = true;
  load_fixture = λ filename.
      returned
        (door ∷ record door { title = "Doors" } ∷ record door { project_id = "project-2" } ∷ []);
  parse_datetime = λ text. some noon;
  parse_date = λ text. some noon;
}

abbrev sample_storage : Storage
sample_storage = record {
  plan_attachment_storage = λ request. returned (record {
    safe_filename = request.original_filename;
    storage_backend = "local";
    storage_key = request.original_filename;
    source_url_present = false;
    source_url_hash = none;
  });
  sanitize_filename = λ text. text;
}

abbrev sample_keys : Keys
sample_keys = record { run_key = λ t. 1; record_key = λ t. 20; object_key = λ t. 40 }

abbrev two_doors : List (String × FixtureItem)
two_doors = ("rfi", door) ∷ ("rfi", record door { title = "Doors" }) ∷ []

abbrev sample_options : SyncOptions
sample_options = record {
  procore_project_id = some "project-1";
  sync_rfis = true;
  sync_submittals = false;
  updated_after = none;
  mode = "fixture";
  commit = true;
  sync_profile_id = none;
}

abbrev sample_request : SyncRequest
sample_request = record {
  connection_id = 3;
  dry_run = false;
  procore_project_id = "project-1";
  sync_rfis = true;
  sync_submittals = false;
  updated_after = noon;
  sync_profile_id = 7;
}

doors_collected :
    collect_fixture_records sample_fixtures sample_connection (some "project-1") true false none
    ≡ returned two_doors
unfolding collect_fixture_records collect_projects collect_project collect_tool list_for_project
    filtered of_project is_among
doors_collected = refl

collect-IsPermitted_example :
    All (λ (entry : String × FixtureItem). IsPermitted sample_connection entry.1) two_doors
collect-IsPermitted_example =
    collect-IsPermitted sample_fixtures sample_connection (some "project-1") true false none
      two_doors doors_collected

abbrev door_key : SourceKey
door_key = record { source_type = "rfi"; procore_project_id = "project-1"; procore_item_id = "1" }

abbrev door_content : String → RecordContent
door_content title = record {
  number = "RFI-1";
  title = title;
  status = "open";
  due_date = none;
  received_at = some noon;
  source_updated_at = some noon;
  raw_payload_json = Json.null;
  attachment_count = 1;
  sync_run_id = 1;
}

doors-IsReadable : All (IsReadable sample_fixtures 1) two_doors
unfolding content_of
doors-IsReadable = ((door_content "Door", refl), ((door_content "Doors", refl), tt))

sync_connection_total_example :
    let (result, s1) =
      sync_connection sample_fixtures sample_storage sample_keys memory sample_connection false
        sample_options noon sample_session in
    (result
      ≡ returned (
          summary_of sample_fixtures sample_storage sample_keys sample_connection none noon
            (some 1)
            two_doors))
    × (source_map (memory.tables s1) door_key
        ≡ put_all sample_fixtures 1 two_doors (source_map (memory.tables sample_session)) door_key)
sync_connection_total_example =
    sync_connection_total sample_fixtures sample_storage sample_keys memory sample_connection
      sample_options noon sample_session two_doors door_key refl doors_collected doors-IsReadable
      (λ request. (_, refl))

worker_sync_lem_example :
    let s1 =
      (worker_sync sample_fixtures sample_storage sample_keys memory noon sample_request
        sample_session).1 in
    (memory.rollback s1 ≡ memory.rollback sample_session)
    × ((memory.tables s1).sync_profiles ≡ (memory.tables sample_session).sync_profiles)
    × ((memory.tables s1).webhook_events ≡ (memory.tables sample_session).webhook_events)
    × (sample_request.dry_run ≡ true → s1 ≡ sample_session)
worker_sync_lem_example =
    worker_sync_lem sample_fixtures sample_storage sample_keys memory noon sample_request
      sample_session
