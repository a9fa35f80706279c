-- ===== src/Events.antt =====
-- events/types.ts: the canonical event, and the values of the source's language that it carries.
-- Numbers are the non-negative integers; an object is its fields in insertion order.
use openclaw_event_server_pl.Common.{
  ℕ, String, Bool, true, false, Option, ◌≡◌, refl, arith, ◌==◌, eq_iff, if◌then◌else◌, show_nat,
  suc,
}

mutual
  pub data Value : Type 0 where
    undefined : Value
    null : Value
    bool : Bool → Value
    num : ℕ → Value
    str : String → Value
    arr : Items → Value
    obj : Fields → Value

  pub data Items : Type 0 where
    nil : Items
    cons : Value → Items → Items

  pub data Fields : Type 0 where
    done : Fields
    field : String → Value → Fields → Fields

-- `object[key]`.
unfoldable pub get_field : String → Fields → Value
get_field k done = undefined
get_field k (field j v fs) = if j == k then v else get_field k fs

-- `{ ...object, [key]: value }`: a key that is present keeps its place.
unfoldable pub set_field : String → Value → Fields → Fields
set_field k v done = field k v done
set_field k v (field j w fs) = if j == k then field j v fs else field j w (set_field k v fs)

-- The keys of an array are its indices.
index_fields : ℕ → Items → Fields
index_fields n nil = done
index_fields n (cons v vs) = field (show_nat n) v (index_fields (suc n) vs)

-- `typeof value === 'object' && value !== null`.
abbrev pub is_record : Value → Bool
is_record (arr vs) = true
is_record (obj fs) = true
is_record _ = false

-- The own fields of a record, `{}` for what is none.
unfoldable pub fields_of : Value → Fields
unfolding index_fields
fields_of (arr vs) = index_fields 0 vs
fields_of (obj fs) = fs
fields_of _ = done

-- `a ?? b`.
abbrev pub coalesce : Value → Value → Value
coalesce undefined b = b
coalesce null b = b
coalesce a b = a

abbrev pub is_string : Value → Bool
is_string (str s) = true
is_string _ = false

abbrev pub is_number : Value → Bool
is_number (num n) = true
is_number _ = false

pub record OpenClawEvent : Type 0 where
  pub event_id : String
  pub schema_version : String
  pub type : String
  pub event_category : Option String
  pub event_name : Option String
  pub source : Option String
  pub timestamp : String
  pub agent_id : Option String
  pub agent_name : Option String
  pub session_id : Option String
  pub session_key : Option String
  pub session_name : Option String
  pub run_id : Option String
  pub tool_call_id : Option String
  pub correlation_id : Option String
  pub result : Value
  pub error : Value
  pub plugin_version : String
  pub signature : Value
  pub event_data : Value
  pub metadata : Value

pub get_field-set_field :
    (k j : String) (v : Value) (fs : Fields)
    → get_field j (set_field k v fs) ≡ (if k == j then v else get_field j fs)
unfolding get_field set_field
get_field-set_field k j v done = refl
get_field-set_field k j v (field i w fs) =
    ground (arith, eq_iff k j, eq_iff i k, eq_iff i j, get_field-set_field k j v fs)
