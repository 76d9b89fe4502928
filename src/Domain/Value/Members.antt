-- ===== src/Domain/Value/Members.antt =====
-- Dictionaries with texts for keys: what the source does with `get`, `pop` and an assignment.
use action_lineage.Base.{String, str_eq, if◌then◌else◌}
use action_lineage.Domain.Value.{Value, null, map, Fields, end, field, text, non_text}

-- `fields.get(name)`, None if there is no such key.
unfoldable pub get : String → Fields → Value
get name end = null
get name (field non_text v fs) = get name fs
get name (field (text k) v fs) = if str_eq k name then v else get name fs

-- The member of a value that is a mapping.
abbrev pub member_in : String → Value → Value
member_in name (map _ fs) = get name fs
member_in name _ = null

-- `fields.pop(name, None)`.
unfoldable pub pop : String → Fields → Fields
pop name end = end
pop name (field non_text v fs) = field non_text v (pop name fs)
pop name (field (text k) v fs) = if str_eq k name then fs else field (text k) v (pop name fs)

-- `fields[name] = v`: the value of the key, or a new key at the end.
unfoldable pub put : String → Value → Fields → Fields
put name v end = field (text name) v end
put name v (field non_text w fs) = field non_text w (put name v fs)
put name v (field (text k) w fs) =
    if str_eq k name then field (text k) v fs else field (text k) w (put name v fs)
