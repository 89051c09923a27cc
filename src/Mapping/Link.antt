-- ===== src/Mapping/Link.antt =====
-- frontend/src/pages/RecordsPage.tsx and frontend/src/App.tsx: the way from an upload's result to the
-- review of its columns.
pub mod Laws
use tidybridge.Base.{
  Str, js, true, ◌≡◌, refl, Option, none, some, [], ◌++◌, if◌then◌else◌, truthy, or_else,
}
use tidybridge.I18n.{Lang}
use tidybridge.Types.{ColumnMapping, IngestResult}
use tidybridge.Client.Errors.{Failure, fail}
use tidybridge.Mapping.Review.{
  Props, Review, effective_initial, effective_run_id, load_end, load_failed, is_not_found,
}

-- What the link hands to the route, besides the path.
pub record ReviewState : Type 0 where
  pub initial_resolution : Option ColumnMapping
  pub ingestion_run_id : Option Str

-- onReviewMapping
unfoldable pub review_visit : IngestResult → Str × ReviewState
review_visit r = (
  js "/column-mappings/" ++ r.fingerprint,
  record {
    initial_resolution =
        some (record {
          field_resolutions = r.field_resolutions;
          dedup_key_fields = r.dedup_key_fields;
        });
    ingestion_run_id = some r.ingestion_run_id;
  },
)

-- ColumnMappingReviewRoute: the page's props, unless the path has no fingerprint. A visit without
-- a state is one with nothing in it.
unfoldable pub review_props : Option Str → ReviewState → Option Props
review_props fingerprint state =
    if truthy fingerprint
    then some (record {
      fingerprint = or_else fingerprint [];
      initial_resolution = state.initial_resolution;
      ingestion_run_id = state.ingestion_run_id;
    })
    else none
