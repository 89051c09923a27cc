-- ===== src/Mapping/Link/Laws.antt =====
-- RecordsPage.tsx, App.tsx and ColumnMappingReviewPage.tsx: where the link of an upload leads.
use tidybridge.Base.{Option}
use tidybridge.I18n.{Lang}
use tidybridge.Types.{IngestResult}
use tidybridge.Client.Errors.{Failure, fail}
use tidybridge.Mapping.Review.{Props, Review, effective_initial, load_begin, load_end}

-- The page, after a load that found no mapping.
abbrev pub unsaved : Lang → Props → Option IngestResult → Failure → Review → Review
unsaved lang props stored e s =
    load_end lang (effective_initial props stored) (fail e) (load_begin s)
