-- ===== src/Ingest/Order.antt =====
-- The order in which src/actionlineage/evidence/ingestion.py imports records: texts by their code
-- points, pairs by their first parts first.
use action_lineage.Base.{Bool, List, if◌then◌else◌, str_eq, text_le, sort_by}
use action_lineage.Ingest.{EvidenceRecord}

-- The order of `(sort_key, idempotency_key)`.
unfoldable pub comes_first : EvidenceRecord → EvidenceRecord → Bool
comes_first r s =
    if str_eq r.sort_key s.sort_key
    then text_le r.idempotency_key s.idempotency_key
    else text_le r.sort_key s.sort_key

-- `sorted`, which is stable.
unfoldable pub sorted : List EvidenceRecord → List EvidenceRecord
sorted records = sort_by comes_first records
