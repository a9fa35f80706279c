-- ===== src/Transport/Lock.antt =====
-- transport/lock.ts: the lock file by which the runtimes of a host agree on an owner. The file is a
-- value: its contents as JSON, none where they are no JSON or cannot be read, and its time of
-- modification. What the operating system answers (the clock, signals, write errors) is an argument.
pub mod Payload
use openclaw_event_server_pl.Common.{
  ℕ, ◌-◌, String, Bool, true, false, not, ◌&&◌, Option, none, some, ltb, nat_eq, ◌==◌,
  if◌then◌else◌,
}
use openclaw_event_server_pl.Events.{
  Value, Fields, undefined, null, bool, num, str, arr, obj, done, field, get_field, fields_of,
}

pub record LockFilePayload : Type 0 where
  pub runtime_id : String
  pub pid : ℕ
  pub updated_at : ℕ
  pub socket_path : String

pub record LockFile : Type 0 where
  pub contents : Option Value
  pub mtime : ℕ

-- `process.kill(pid, 0)`: no error, ESRCH, or another error.
pub data Signal : Type 0 where
  sent no_process not_permitted : Signal

pub record Os : Type 0 where
  pub now : ℕ
  pub pid : ℕ
  pub signal : ℕ → Signal

-- Where writing a file fails, if it does: before the file is opened, or after that, when it is empty.
pub data WriteFault : Type 0 where
  no_fault before_open after_open : WriteFault

pub data CreateResult : Type 0 where
  created already_exists io_error : CreateResult

-- The payload as an object; the file stands for the value that its text is parsed to.
unfoldable pub payload_value : LockFilePayload → Value
payload_value p = obj (
    field "runtimeId" (str p.runtime_id) (
      field "pid" (num p.pid)
        (field "updatedAt" (num p.updated_at) (field "socketPath" (str p.socket_path) done))))

payload_of : Value → Value → Value → Value → Option LockFilePayload
payload_of (str id) (num pid) (num updated_at) (str path) =
    some (record { runtime_id = id; pid = pid; updated_at = updated_at; socket_path = path })
payload_of _ _ _ _ = none

-- What is made of the value that `JSON.parse` gives, or of its error.
unfoldable pub parse_lock_payload : Option Value → Option LockFilePayload
unfolding payload_of
parse_lock_payload none = none
parse_lock_payload (some value) =
    payload_of (get_field "runtimeId" (fields_of value)) (get_field "pid" (fields_of value))
      (get_field "updatedAt" (fields_of value)) (get_field "socketPath" (fields_of value))

unfoldable pub read_lock_payload : Option LockFile → Option LockFilePayload
read_lock_payload none = none
read_lock_payload (some f) = parse_lock_payload f.contents

-- Process ids are natural numbers here, so only 0 fails the check of the number.
unfoldable pub is_process_alive : Os → ℕ → Bool
is_process_alive os pid =
    if nat_eq pid 0
    then false
    else elim (os.signal pid) [ sent ↦ true | no_process ↦ false | not_permitted ↦ true ]

file_with : Os → Option Value → Option LockFile
file_with os contents = some (record { contents = contents; mtime = os.now })

-- `openSync(path, 'wx')` and the write.
unfoldable pub write_new_lock :
    Os → WriteFault → LockFilePayload → Option LockFile → CreateResult × Option LockFile
unfolding file_with payload_value
write_new_lock os before_open p f = (io_error, f)
write_new_lock os no_fault p (some f) = (already_exists, some f)
write_new_lock os after_open p (some f) = (already_exists, some f)
write_new_lock os no_fault p none = (created, file_with os (some (payload_value p)))
write_new_lock os after_open p none = (io_error, file_with os none)

-- True where nothing is thrown.
unfoldable pub overwrite_lock :
    Os → WriteFault → LockFilePayload → Option LockFile → Bool × Option LockFile
unfolding file_with payload_value
overwrite_lock os no_fault p f = (true, file_with os (some (payload_value p)))
overwrite_lock os before_open p f = (false, f)
overwrite_lock os after_open p f = (false, file_with os none)

stale_by_mtime : Os → ℕ → Option LockFile → Bool
stale_by_mtime os stale_after_ms none = true
stale_by_mtime os stale_after_ms (some f) = ltb stale_after_ms (os.now - f.mtime)

unfoldable pub is_lock_stale : Os → ℕ → Option LockFile → Bool
unfolding stale_by_mtime
is_lock_stale os stale_after_ms f = elim (read_lock_payload f) [
  | none ↦ stale_by_mtime os stale_after_ms f
  | some p ↦
      if not (is_process_alive os p.pid) then true else ltb stale_after_ms (os.now - p.updated_at)
]

-- `fails` is that `unlinkSync` throws, which is ignored.
unfoldable pub remove_lock_if_owned : Bool → String → Option LockFile → Option LockFile
remove_lock_if_owned fails runtime_id f = elim (read_lock_payload f) [
  | none ↦ if fails then f else none
  | some p ↦ if p.runtime_id == runtime_id then (if fails then f else none) else f
]
