-- ===== src/Sessions/Index.antt =====
-- hooks/session-tracker-helpers.ts: an index, from a text to the set of the records that have it.
pub mod Holds
pub mod Found
use openclaw_event_server_pl.Common.{
  String, Bool, true, false, not, ◌&&◌, ◌||◌, Option, none, some, List, [], ◌∷◌, if◌then◌else◌,
  get_or, ◌==◌, member, add, add_all, remove,
}
use openclaw_event_server_pl.Common.JsMap.{JsMap}
use openclaw_event_server_pl.Common.JsMap

abbrev pub Index : Type 0
Index = JsMap (List String)

unfoldable pub add_index_entry : Index → String → String → Index
add_index_entry index key record_id =
    JsMap.set key (add record_id (get_or (JsMap.get key index) [])) index

unfoldable pub collect_index_entries : Index → String → List String → List String
collect_index_entries index key target = elim (JsMap.get key index) [
  | none ↦ target
  | some current ↦ add_all current target
]

-- The set without the record, and with the one that is preserved.
unfoldable pub replaced : String → Option String → List String → List String
replaced record_id none current = remove record_id current
replaced record_id (some preserve) current =
    if preserve == "" then remove record_id current else add preserve (remove record_id current)

-- An entry that has become empty is deleted.
unfoldable pub store_entry : Index → String → List String → Index
store_entry index key [] = JsMap.delete key index
store_entry index key (x ∷ xs) = JsMap.set key (x ∷ xs) index

unfoldable pub remove_index_entry : Index → String → String → Option String → Index
unfolding replaced store_entry
remove_index_entry index key record_id preserve = elim (JsMap.get key index) [
  | none ↦ index
  | some current ↦ store_entry index key (replaced record_id preserve current)
]

-- The loops over the texts of a record.
unfoldable pub add_entries : List String → String → Index → Index
unfolding add_index_entry
add_entries [] record_id index = index
add_entries (key ∷ rest) record_id index =
    add_entries rest record_id (add_index_entry index key record_id)

unfoldable pub remove_entries : List String → String → Option String → Index → Index
unfolding remove_index_entry
remove_entries [] record_id preserve index = index
remove_entries (key ∷ rest) record_id preserve index =
    remove_entries rest record_id preserve (remove_index_entry index key record_id preserve)

unfoldable pub collect : Index → List String → List String → List String
unfolding collect_index_entries
collect index [] target = target
collect index (key ∷ rest) target = collect index rest (collect_index_entries index key target)
