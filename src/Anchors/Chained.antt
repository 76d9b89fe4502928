-- ===== src/Anchors/Chained.antt =====
-- The log of anchors stays a chain: src/actionlineage/journal/anchors.py.
use action_lineage.Base.{suc, ◌≡◌, String, true, some, [], ok, ℤ}
use action_lineage.Domain.Value.{Value, int, str}
use action_lineage.Journal.{Platform}
use action_lineage.Journal.Hashing.{Bytes}
use action_lineage.Anchors.Log.{LogLibrary, LogEntry, LogVerification, hash_value}
use action_lineage.Anchors.Appends.{verify_journal_anchor_log}

module _ (p : Platform) (lib : LogLibrary p) where
  -- What an append does to a log: it verifies afterwards, with one record more, and the entry's
  -- hash as its last.
  pub record IsAppended (v : LogVerification) (e : LogEntry) (content : Bytes p) : Type 0 where
    pub hash : String
    pub sealed : e.entry_hash ≡ str hash
    pub numbered : e.sequence ≡ int (ℤ.pos (suc v.records_verified))
    pub linked : e.previous_entry_hash ≡ hash_value v.last_entry_hash
    pub verifies :
        verify_journal_anchor_log p lib (some content) (some (suc v.records_verified)) (some hash)
        ≡ ok (record {
          ok_flag = true;
          records_verified = suc v.records_verified;
          last_entry_hash = some hash;
          issues = [];
        })
