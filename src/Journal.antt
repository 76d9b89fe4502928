-- ===== src/Journal.antt =====
-- The local append-only journal: src/actionlineage/journal/hashing.py, verify.py and local.py.
--
-- What Python's libraries do is a `Platform`: the bytes of a JSON object, the reading of an event
-- (`event_from_json`, with pydantic's coercions), the digest SHA-256 and the text of a time.
-- `IsPlatform` states what is documented of them. The code compares bytes for equality and with
-- the newline, and does nothing else with them, so they are an abstract type.
pub mod Bytes
pub mod Hashing
pub mod Snapshot
pub mod Append
pub mod Chain
pub mod Scan
pub mod Verified
pub mod Integrity
pub mod Tamper
pub mod Prepare
pub mod Extend
pub mod Torn
use action_lineage.Base.{ℕ, String, ◌≡◌, ◌≢◌, ◌↔◌, Bool, true, Option, some, List, [], All, ok, ℤ}
use action_lineage.Domain.Value.{Value, int}
use action_lineage.Domain.Value.Members.{member_in}
use action_lineage.Domain.Value.Sorted.{is_sorted}
use action_lineage.Domain.Event.{Event, validate_event, event_to_dict, text_or_null}

pub record Platform : Type 1 where
  pub Byte : Type 0
  pub newline : Byte
  pub byte_eq : Byte → Byte → Bool
  -- `json.dumps(...).encode("utf-8")`, which raises for a text with a surrogate.
  pub dumps : Value → Option (List Byte)
  pub load : List Byte → Option Event
  pub hexdigest : List Byte → String
  pub isoformat : ℕ → String

pub record IsPlatform (p : Platform) : Type 0 where
  pub byte_eq_iff : (a b : p.Byte) → (p.byte_eq a b ≡ true) ↔ (a ≡ b)
  -- Control characters are escaped, and an object has braces.
  pub no_newline :
      (v : Value) (line : List p.Byte) → p.dumps v ≡ some line → All (λ b. b ≢ p.newline) line
  pub dumps-ne-nil : (v : Value) → p.dumps v ≢ some []
  -- With sort_keys=True an object is written with its keys in order, and they are read in the order
  -- in which they stand: what is read has them in order, and a valid event that has them in order
  -- is read back from its JSON object.
  pub load-sorted :
      (v : Value) (line : List p.Byte) (f : Event)
      → p.dumps v ≡ some line
      → p.load line ≡ some f
      → is_sorted f.payload ≡ true
  pub load-dumps :
      (e f : Event) (v : Value) (line : List p.Byte)
      → validate_event e ≡ ok f
      → is_sorted f.payload ≡ true
      → event_to_dict p.isoformat f ≡ ok v
      → p.dumps v ≡ some line
      → p.load line ≡ some f
  -- A number and a text, or null, are read as they stand.
  pub load-sequence :
      (v : Value) (line : List p.Byte) (f : Event) (n : ℕ)
      → p.dumps v ≡ some line
      → p.load line ≡ some f
      → member_in "sequence" (member_in "causality" v) ≡ int (ℤ.pos n)
      → f.causality.sequence ≡ n
  pub load-previous :
      (v : Value) (line : List p.Byte) (f : Event) (hash : Option String)
      → p.dumps v ≡ some line
      → p.load line ≡ some f
      → member_in "previous_event_hash" (member_in "integrity" v) ≡ text_or_null hash
      → f.integrity.previous_event_hash ≡ hash
  -- What is read has been validated.
  pub load-valid :
      (b : List p.Byte) (f : Event) → p.load b ≡ some f → (e : Event) × (validate_event e ≡ ok f)
