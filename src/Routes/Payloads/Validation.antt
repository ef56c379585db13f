-- ===== src/Routes/Payloads/Validation.antt =====
-- provider/routes.go, model/common.go: what the validated payloads guarantee.
use managed_services_lib.Common.{
  ◌≤◌, String, ◌≡◌, ◌≢◌, ◌↔◌, ◌⊎◌, Bool, true, false, none, eq_iff, arith,
}
use managed_services_lib.Model.Contract.{RecoverFrom, BackupStoreConfig}
use managed_services_lib.Provider.Interface.{rune_count}
use managed_services_lib.Routes.Payloads.{
  valid_recover_from, valid_store_config, starts_with_slash, ends_with_slash,
}

-- A restore names a backup and no time, or a service and a time.
abbrev pub OneSource : RecoverFrom → Type 0
OneSource r =
    ((r.id ≢ "") × (r.ms_id ≡ "") × (r.time ≡ none))
    ⊎ ((r.id ≡ "") × (r.ms_id ≢ "") × (r.time ≢ none))

-- A store is S3 with an endpoint that is a URL, a bucket of 1 to 255 characters, an access key, and a
-- prefix that neither begins nor ends with a slash.
abbrev pub GoodStore : (String → Bool) → BackupStoreConfig → Type 0
GoodStore url c =
    (c.type ≡ "s3")
    × (c.endpoint_url ≢ "")
    × (url c.endpoint_url ≡ true)
    × (c.bucket ≢ "")
    × (rune_count c.bucket ≤ 255)
    × (starts_with_slash c.prefix ≡ false)
    × (ends_with_slash c.prefix ≡ false)
    × (c.access_key_id ≢ "")

valid_store_config_iff :
    (url : String → Bool) (c : BackupStoreConfig)
    → (valid_store_config url c ≡ true) ↔ GoodStore url c
unfolding valid_store_config
valid_store_config_iff url c = ground (
  arith,
  eq_iff c.type "",
  eq_iff c.type "s3",
  eq_iff "s3" "",
  eq_iff c.endpoint_url "",
  eq_iff c.bucket "",
  eq_iff c.access_key_id "",
)

-- The tags of `recoverFrom` accept exactly the restores that name one source, with a time if and
-- only if it is a service, in a good store with a secret key.
pub valid_recover_from_iff :
    (url : String → Bool) (r : RecoverFrom)
    → (valid_recover_from url r ≡ true)
      ↔ (OneSource r × GoodStore url r.config × (r.secrets.secret_key ≢ ""))
unfolding valid_recover_from
valid_recover_from_iff url r = ground (
  arith,
  valid_store_config_iff url r.config,
  eq_iff r.id "",
  eq_iff r.ms_id "",
  eq_iff r.secrets.secret_key "",
)
