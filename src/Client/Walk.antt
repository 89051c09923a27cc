-- ===== src/Client/Walk.antt =====
-- frontend/src/api/client.ts: the loop of `listRecords` and `listIngestionRuns`, which asks for
-- page after page. The loop has fuel, one unit to a request; `none` is that it ran out.
pub mod Complete
pub mod Ends
use tidybridge.Base.{
  ℕ, zero, suc, ◌+◌, Str, js, String, Bool, true, false, ◌||◌, Option, none, some, List, [], ◌∷◌,
  ◌++◌, if◌then◌else◌, ◌==◌, leb, length, truthy, or_else,
}
use tidybridge.I18n.{decimal}
use tidybridge.Types.{ClientRecord, IngestionRun, Page}
use tidybridge.Client.Errors.{Result, ok, fail, other_error}
use tidybridge.Client.Request.{
  Payload, runs, records, Session, Build, HttpRequest, Response, request, defaults,
}

module _ {A S : Type 0} where
  -- One round of `while (true)`: `again` goes on with the next offset and all that was read.
  unfoldable pub round :
      (ℕ → List A → Session S → Option (Result (List A) × Session S))
      → ℕ
      → List A
      → Result (Page A) × Session S
      → Option (Result (List A) × Session S)
  round again offset all (fail e, w) = some (fail e, w)
  round again offset all (ok page, w) =
      if length page.items == 0 || leb page.total (offset + length page.items)
      then some (ok (all ++ page.items), w)
      else again (offset + length page.items) (all ++ page.items) w

module _ {A S : Type 0} (fetch : ℕ → Session S → Result (Page A) × Session S) where
  unfoldable pub walk : ℕ → ℕ → List A → Session S → Option (Result (List A) × Session S)
  unfolding round
  walk zero offset all w = none
  walk (suc fuel) offset all w = round (walk fuel) offset all (fetch offset w)

abbrev pub as_records : Payload → Result (Page ClientRecord)
as_records (records page) = ok page
as_records _ = fail other_error

abbrev pub as_runs : Payload → Result (Page IngestionRun)
as_runs (runs page) = ok page
as_runs _ = fail other_error

-- The part of the query that says which records: has_issues and ingestion_run_id.
unfoldable pub record_filter : Option Bool → Option Str → Str
record_filter has_issues run =
    elim has_issues [
      | none ↦ []
      | some b ↦ js "&has_issues=" ++ (if b then js "true" else js "false")
    ]
    ++ (if truthy run then js "&ingestion_run_id=" ++ or_else run [] else [])

unfoldable pub records_path : Option Bool → Option Str → ℕ → Str
records_path has_issues run offset =
    js "/records?limit=500&offset=" ++ (decimal offset ++ record_filter has_issues run)

unfoldable pub runs_path : ℕ → Str
runs_path offset = js "/ingestion-runs?limit=500&offset=" ++ decimal offset

module _ {S : Type 0} (build : Build) (serve : S → HttpRequest → Option Response × S)
    (fuel : ℕ) where
  unfoldable pub list_records :
      Option Bool → Option Str → Session S → Option (Result (List ClientRecord) × Session S)
  list_records has_issues run w =
      walk (λ offset. request build serve as_records (records_path has_issues run offset) defaults)
        fuel 0 [] w

  unfoldable pub list_ingestion_runs : Session S → Option (Result (List IngestionRun) × Session S)
  list_ingestion_runs w =
      walk (λ offset. request build serve as_runs (runs_path offset) defaults) fuel 0 [] w
