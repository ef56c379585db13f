-- ===== src/Http.antt =====
-- The requests and responses of net/http and gin that the handlers and the middleware touch. A
-- handler changes the response under construction (`Context`) and the world, and may panic. It writes
-- one response at most, and panics only before it has written.
use managed_services_lib.Common.{ℕ, String, List, [], ◌∷◌, ◌++◌}
use managed_services_lib.Common.StringMap.{StringMap, put}
use managed_services_lib.Model.Contract.{ServiceId, BackupStatus}

-- `raw_query` is the text after `?`; `ids` the values of its `id` parameter (`QueryArray`).
pub record Request : Type 0 where
  pub method : String
  pub path : String
  pub raw_query : String
  pub ids : List String
  pub header : String → String
  pub client_ip : String
  pub body : String

-- What a handler answers; `D` is the type of the services' statuses.
pub data Payload (D : Type 0) : Type 0 where
  no_payload : Payload D
  object : StringMap String → Payload D
  service_ids : List ServiceId → Payload D
  statuses : StringMap D → Payload D
  backup_status : BackupStatus → Payload D

pub data Level : Type 0 where
  info warn error : Level

pub record LogEntry : Type 0 where
  pub level : Level
  pub msg : String
  pub attrs : StringMap String

pub record Context (D : Type 0) : Type 0 where
  pub status : ℕ
  pub headers : StringMap String
  pub payload : Payload D
  pub log : List LogEntry

pub data Finish (D : Type 0) : Type 0 where
  returned : Context D → Finish D
  panicked : String → Context D → Finish D

-- The response so far, whether the handler returned or panicked.
abbrev pub context_of : {D : Type 0} → Finish D → Context D
context_of (returned c) = c
context_of (panicked m c) = c

abbrev pub Handler : Type 0 → Type 0 → Type 0
Handler S D = Context D → S → Finish D × S

module _ {D : Type 0} where
  -- gin answers 200 with no body if a handler says nothing else.
  abbrev pub fresh : Context D
  fresh = record { status = 200; headers = []; payload = no_payload; log = [] }

  -- `c.JSON(code, payload)`
  abbrev pub json : ℕ → Payload D → Context D → Context D
  json code payload c = record c { status = code; payload = payload }

  -- `c.Status(code)`
  abbrev pub set_status : ℕ → Context D → Context D
  set_status code c = record c { status = code }

  -- `c.Header(key, value)`
  abbrev pub set_header : String → String → Context D → Context D
  set_header k v c = record c { headers = put k v c.headers }

  abbrev pub log_entry : Level → String → StringMap String → Context D → Context D
  log_entry level msg attrs c = record c {
    log = c.log ++ record { level = level; msg = msg; attrs = attrs } ∷ [];
  }

  -- `gin.H{"error": text}`
  abbrev pub error_object : String → Payload D
  error_object text = object (("error", text) ∷ [])
